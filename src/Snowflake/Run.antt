-- ===== src/Snowflake/Run.antt =====
-- The identifiers that one node hands out over its life.
use nanolink.Prelude.{
  ℕ, zero, suc, ◌+◌, ◌*◌, ◌^◌, ◌≤◌, ◌<◌, ◌≡◌, refl, ◌⊎◌, inl, inr, some, arith, List, [], ◌∷◌,
  Option-cases, ◌∙◌,
}
use nanolink.Prelude.Int.{ℤ, pos, negsuc, pos_part, neg_part, ◌≤ℤ◌, ◌<ℤ◌}
use nanolink.Prelude.Result.{ok}
use nanolink.Snowflake.{Node, epoch, max_sequence, new_node, compose, generate, run}
use nanolink.Snowflake.Fields.{IsValid, InSpan, age, compose-fields}
use nanolink.Snowflake.Step.{Advances, Later, generate-Advances}

-- Strictly increasing numbers, the first at least `low`.
abbrev pub Rising : ℕ → List ℕ → Type 0
Rising low [] = Unit {0}
Rising low (x ∷ xs) = (low ≤ x) × Rising (x + 1) xs

pub Advances-IsValid : {n m : Node} {id : ℕ} → IsValid n → Advances n m id → IsValid m
Advances-IsValid v a = record {
  base = a.base ∙ v.base;
  lower = rw a.node v.lower;
  upper = rw a.node v.upper;
  fits = a.fits;
}

sign : (a : ℤ) → (neg_part a ≡ 0) ⊎ (pos_part a ≡ 0)
sign (pos n) = inl refl
sign (negsuc n) = inr refl

-- A later state composes a larger identifier.
pub compose-lt :
    (n m : Node) {id : ℕ}
    → IsValid n
    → Advances n m id
    → InSpan n.last_stamp
    → InSpan m.last_stamp
    → compose n < compose m
compose-lt n m v a sn sm =
    rw (compose-fields n v sn, compose-fields m (Advances-IsValid v a) sm, a.node) (order a.later)
  where
    order :
        Later n m
        → age n * 2 ^ 22 + pos_part n.node * 2 ^ 12 + n.sequence
          < age m * 2 ^ 22 + pos_part n.node * 2 ^ 12 + m.sequence
    order (inl lt) = omega (arith, sign n.last_stamp, sign m.last_stamp)
    order (inr (e, s)) = rw (e, s) (omega arith)

-- The first call of a run and the rest of it.
record Split (fuel : ℕ) (clock : ℕ → ℤ) (at k : ℕ) (n : Node) (ids : List ℕ) (m : Node)
    : Type 0 where
  id : ℕ
  next : Node
  at' : ℕ
  rest : List ℕ
  called : generate fuel clock at n ≡ some (id, next, at')
  ran : run fuel clock at' k next ≡ some (rest, m)
  listed : ids ≡ id ∷ rest

run-Split :
    (fuel : ℕ) (clock : ℕ → ℤ) (at k : ℕ) (n : Node) {ids : List ℕ} {m : Node}
    → run fuel clock at (suc k) n ≡ some (ids, m)
    → Split fuel clock at k n ids m
unfolding run
run-Split fuel clock at k n {ids = l} {m = x} e = elim (Option-cases (generate fuel clock at n)) [
  | inl stuck ↦ absurd (cc (rw (stuck, run) at e))
  | inr ((id, n', a), g) ↦ elim (Option-cases (run fuel clock a k n')) [
    | inl stuck ↦ absurd (cc (rw (g, run, stuck) at e))
    | inr ((rest, last), r) ↦
        let eq : some (id ∷ rest, last) ≡ some (l, x) = rw (g, run, r) at e in
        let p : last ≡ x = cc in
        record {
          id = id;
          next = n';
          at' = a;
          rest = rest;
          called = g;
          ran = rw (← p) r;
          listed = cc;
        }
  ]
]

Later-le : (n m : Node) → Later n m → n.last_stamp ≤ℤ m.last_stamp
Later-le n m (inl lt) = omega arith
Later-le n m (inr (q, _)) = rw q (omega arith)

run-later :
    (fuel : ℕ) (clock : ℕ → ℤ) (at k : ℕ) (n : Node) {ids : List ℕ} {m : Node}
    → n.sequence ≤ max_sequence
    → run fuel clock at k n ≡ some (ids, m)
    → n.last_stamp ≤ℤ m.last_stamp
unfolding run
run-later fuel clock at zero n {m = m} fits e = let p : n ≡ m = cc in rw p (omega arith)
run-later fuel clock at (suc k) n {m = m} fits e =
    let s = run-Split fuel clock at k n e in
    let a = (generate-Advances fuel clock at n fits s.called).0 in
    let r : s.next.last_stamp ≤ℤ m.last_stamp = run-later fuel clock s.at' k s.next a.fits s.ran in
    omega (arith, Later-le n s.next a.later)

run-Rising :
    (fuel : ℕ) (clock : ℕ → ℤ) (at k : ℕ) (n : Node) {ids : List ℕ} {m : Node}
    → IsValid n
    → InSpan n.last_stamp
    → m.last_stamp <ℤ pos (1704067200000 + 2 ^ 42)
    → run fuel clock at k n ≡ some (ids, m)
    → Rising (compose n + 1) ids
unfolding run
run-Rising fuel clock at zero n {ids = []} v s h e = tt
run-Rising fuel clock at zero n {ids = x ∷ l} v s h e = absurd (cc)
run-Rising fuel clock at (suc k) n {m = m} v s h e =
    let p = run-Split fuel clock at k n e in
    let a = (generate-Advances fuel clock at n v.fits p.called).0 in
    let v' : IsValid p.next = Advances-IsValid v a in
    let up : n.last_stamp ≤ℤ p.next.last_stamp = Later-le n p.next a.later in
    let end : p.next.last_stamp ≤ℤ m.last_stamp =
      run-later fuel clock p.at' k p.next a.fits p.ran in
    let s' : InSpan p.next.last_stamp = record { since = omega arith; until = omega arith } in
    let ih : Rising (compose p.next + 1) p.rest =
      run-Rising fuel clock p.at' k p.next v' s' h p.ran in
    let lt : compose n < compose p.next = compose-lt n p.next v a s s' in
    rw (p.listed, a.composed) (omega arith, ih)

-- A new node is valid, and has handed out nothing.
pub new_node-IsValid : (i : ℤ) {n : Node} → new_node i ≡ ok n → IsValid n
unfolding new_node
new_node-IsValid i e = ground arith

-- The identifiers that one node hands out in a run of calls from its creation on are strictly
-- increasing, and so distinct, whatever its clock does between the calls: jumps, standstill, steps
-- back. The conditions: the calls return, the first reading is not before the start of 2024, and
-- the last stamp is less than 2 ^ 42 ms after it.
pub run-new_node-Rising :
    (fuel : ℕ) (clock : ℕ → ℤ) (at k : ℕ) (i : ℤ) {n m : Node} {ids : List ℕ}
    → new_node i ≡ ok n
    → epoch ≤ℤ clock at
    → m.last_stamp <ℤ pos (1704067200000 + 2 ^ 42)
    → run fuel clock at k n ≡ some (ids, m)
    → Rising 0 ids
unfolding run
run-new_node-Rising fuel clock at zero i {ids = []} new start h e = tt
run-new_node-Rising fuel clock at zero i {ids = x ∷ l} new start h e = absurd (cc)
run-new_node-Rising fuel clock at (suc k) i {n = n} {m = m} new start h e =
    let v = new_node-IsValid i new in
    let p = run-Split fuel clock at k n e in
    let (a, low) = generate-Advances fuel clock at n v.fits p.called in
    let end : p.next.last_stamp ≤ℤ m.last_stamp =
      run-later fuel clock p.at' k p.next a.fits p.ran in
    let s' : InSpan p.next.last_stamp = record { since = omega arith; until = omega arith } in
    let ih : Rising (compose p.next + 1) p.rest =
      run-Rising fuel clock p.at' k p.next (Advances-IsValid v a) s' h p.ran in
    rw (p.listed, a.composed) (omega arith, ih)
