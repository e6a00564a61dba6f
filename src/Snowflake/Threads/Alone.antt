-- ===== src/Snowflake/Threads/Alone.antt =====
-- A call of Generate that nobody interrupts, as turns of its goroutine: internal/pkg/snowflake/snowflake.go.
use Prim.Native.Nat.{bit_and}
use mathlib.Core.Logic.{if_pos}
use mathlib.Core.Path.{subst}
use native.Mathlib.Decide.{ℕ_discrete}
use nanolink.Prelude.{
  ℕ, zero, suc, ◌+◌, ◌≡◌, refl, ap, ◌∙◌, inl, inr, none, some, ◌∷◌, ◌==◌, Bool-cases, Option-cases,
}
use nanolink.Prelude.Int.{ℤ, leb_ℤ, eqb_ℤ}
use nanolink.Snowflake.{Node, max_sequence, compose, stamp, generate}
use nanolink.Snowflake
use nanolink.Snowflake.Fields.{InSpan}
use nanolink.Snowflake.Step.{first}
use nanolink.Snowflake.Threads.{
  outside, entered, spinning, settled, Threads, update, sequenced, read, spin, finished, Turn, lock,
  look, wait, leave, Turns, here, next,
}

follows : {s t u : Threads} → Turns s t → Turns t u → Turns s u
follows r here = r
follows r (next q t) = next (follows r q) t

-- Turns of goroutine i up to the last three lines of Generate, for `now` and with the node as `n`.
record Settles (i : ℕ) (s : Threads) (n : Node) (now : ℤ) : Type 0 where
  to : Threads
  turns : Turns s to
  at : to.pc i ≡ settled now
  node : to.node ≡ n
  given : to.given ≡ s.given

own : (s : Threads) (i : ℕ) (p : Snowflake.Threads.Pc) → update s.pc i p i ≡ p
own s i p = if_pos (ℕ_discrete i i) refl _ _

-- The waiting loop.
wait-Settles :
    (fuel : ℕ) (clock : ℕ → ℤ) (at : ℕ) (now : ℤ) (i : ℕ) (s : Threads) {now' : ℤ} {at' : ℕ}
    → ((k : ℕ) → InSpan (clock k))
    → s.pc i ≡ spinning now
    → Snowflake.wait fuel clock at s.node.last_stamp now ≡ some (now', at')
    → Settles i s s.node now'
unfolding Snowflake.wait spin
wait-Settles zero clock at now i s span e w = absurd (cc)
wait-Settles (suc fuel) clock at now i s {now' = n'} {at' = a'} span e w =
    let u : Threads = record s { pc = update s.pc i (spin s.node now (clock at)) } in
    let turn : Turn s u = wait i now (clock at) e (span at) refl in
    elim (Bool-cases (leb_ℤ now s.node.last_stamp)) [
      | inl early ↦
          let there : u.pc i ≡ spinning (clock at) = own s i _ ∙ rw early refl in
          let rest =
            wait-Settles fuel clock (suc at) (clock at) i u {now' = n'} {at' = a'} span there
              (rw early at w) in
          record {
            to = rest.to;
            turns = follows (next here turn) rest.turns;
            at = rest.at;
            node = rest.node;
            given = rest.given;
          }
      | inr late ↦
          let ended : some (now, at) ≡ some (n', a') = rw late at w in
          let same : now ≡ n' = cc in
          record {
            to = u;
            turns = next here turn;
            at = own s i _ ∙ rw (late, same) refl;
            node = refl;
            given = refl;
          }
    ]

-- Turns through a whole call of goroutine i, which returns `id` and leaves the node as `m`.
pub record Returns (i : ℕ) (s : Threads) (id : ℕ) (m : Node) : Type 0 where
  pub to : Threads
  pub turns : Turns s to
  pub node : to.node ≡ m
  pub given : to.given ≡ id ∷ s.given
  pub mu : to.mu ≡ none
  pub pc : to.pc i ≡ outside

Settles-Returns :
    (i : ℕ) (s : Threads) (n : Node) (now : ℤ)
    → Settles i s n now
    → Returns i s (compose (finished n now)) (finished n now)
Settles-Returns i s n now d = record {
  to = record {
    node = finished d.to.node now;
    mu = none;
    pc = update d.to.pc i outside;
    given = compose (finished d.to.node now) ∷ d.to.given;
  };
  turns = next d.turns (leave i now d.at refl);
  node = ap (λ (x : Node). finished x now) d.node;
  given = rw (d.node, d.given) refl;
  mu = refl;
  pc = own d.to i outside;
}

-- The same for what `stamp` returns.
stamped :
    (i : ℕ) (s : Threads) (n : Node) (k : ℕ) (now : ℤ) (at : ℕ) {id : ℕ} {m : Node} {at' : ℕ}
    → Settles i s (record n { sequence = k }) now
    → stamp n k (some (now, at)) ≡ some (id, m, at')
    → Returns i s id m
unfolding stamp
stamped i s n k now at {id = d} {m = m} settles e =
    let n' : Node = record n { sequence = k; last_stamp = now } in
    let p : n' ≡ m = cc in
    let q : compose n' ≡ d = cc in
    subst (λ x. Returns i s d x) p
      (subst (λ x. Returns i s x n') q
        (Settles-Returns i s (record n { sequence = k }) now settles))

-- The call up to the waiting loop or past it.
read-Turns :
    (i : ℕ) (s : Threads) (t : ℤ)
    → s.pc i ≡ outside
    → s.mu ≡ none
    → InSpan t
    → (u : Threads) × Turns s u
      × (u.pc i ≡ (read s.node t).1)
      × (u.node ≡ (read s.node t).0)
      × (u.given ≡ s.given)
read-Turns i s t e free span =
    let u : Threads = record s { mu = some i; pc = update s.pc i entered } in
    (
      record u { node = (read u.node t).0; pc = update u.pc i (read u.node t).1 },
      next (next here (lock i e free refl)) (look i t (own s i entered) span refl),
      own u i _,
      refl,
      refl,
    )

-- Whenever `generate` returns, with readings of the clock in the 2 ^ 42 ms from the start of 2024,
-- there are such turns: from any state with its node in which goroutine i is outside and the mutex is
-- free, to one in which just one identifier more has been returned, that of `generate`, the node is as
-- `generate` leaves it, i is outside again, and the mutex is free.
pub generate-Returns :
    (fuel : ℕ) (clock : ℕ → ℤ) (at : ℕ) (i : ℕ) (s : Threads) {id : ℕ} {m : Node} {at' : ℕ}
    → ((k : ℕ) → InSpan (clock k))
    → s.pc i ≡ outside
    → s.mu ≡ none
    → generate fuel clock at s.node ≡ some (id, m, at')
    → Returns i s id m
unfolding generate read sequenced
generate-Returns fuel clock at i s {id = d} {m = m} {at' = a'} span e free g =
    let (u, turns, there, node, given) = read-Turns i s (clock at) e free (span at) in
    elim (Bool-cases (eqb_ℤ now last)) [
      | inr moved ↦
          stamped i s s.node 0 now (suc at)
            (record {
              to = u;
              turns = turns;
              at = there ∙ rw moved refl;
              node = node ∙ rw moved refl;
              given = given;
            })
            (rw moved at g)
      | inl same ↦ elim (Bool-cases (sequence == 0)) [
        | inl full ↦ elim (Option-cases (Snowflake.wait fuel clock (suc at) last now)) [
          | inl stuck ↦ absurd (cc (rw (same, full, stuck, stamp) at g))
          | inr ((t, a), ended) ↦
              let found : u.node ≡ record s.node { sequence = sequence } = node ∙ rw same refl in
              let settles =
                wait-Settles fuel clock (suc at) now i u {now' = t} {at' = a} span
                  (there ∙ rw (same, full) refl)
                  (rw (ap (λ (x : Node). x.last_stamp) found) ended) in
              stamped i s s.node sequence t a
                (record {
                  to = settles.to;
                  turns = follows turns settles.turns;
                  at = settles.at;
                  node = settles.node ∙ found;
                  given = settles.given ∙ given;
                })
                (rw (same, full, ended) at g)
        ]
        | inr room ↦
            stamped i s s.node sequence now (suc at)
              (record {
                to = u;
                turns = turns;
                at = there ∙ rw (same, room) refl;
                node = node ∙ rw same refl;
                given = given;
              })
              (rw (same, room) at g)
      ]
    ]
  where
    last : ℤ
    last = s.node.last_stamp

    now : ℤ
    now = first (clock at) last

    sequence : ℕ
    sequence = bit_and (s.node.sequence + 1) max_sequence
