-- ===== src/Snowflake/Threads/Runs.antt =====
-- Interleaved calls of Generate, internal/pkg/snowflake/snowflake.go, from a new node on.
use mathlib.Core.Path.{subst}
use nanolink.Prelude.{ℕ, ◌≡◌, ◌≢◌, refl, sym, inl, inr, Option, List, [], ◌∷◌, arith}
use nanolink.Prelude.Int.{ℤ}
use nanolink.Prelude.Result.{ok}
use nanolink.Snowflake.{Node, new_node}
use nanolink.Snowflake.Fields.{IsValid}
use nanolink.Snowflake.Run.{Advances-IsValid, new_node-IsValid}
use nanolink.Snowflake.Threads.{
  Pc, outside, Turn, lock, look, wait, leave, fresh, entered, Threads, read, spin, finished, Turns,
  here, next,
}
use nanolink.Snowflake.Threads.Exclusion.{
  Falling, Past, Held, read-Inside, spin-Inside, leave-Past, holder, stays, empties,
}

-- The state at any time: the node as the last call to return has left it, and the one call under way.
pub record IsExclusive (s : Threads) : Type 0 where
  pub base : Node
  pub valid : IsValid base
  pub past : Past base s.given
  pub held : Held base s.node s.pc s.mu

pub fresh-IsExclusive : (k : ℤ) {n : Node} → new_node k ≡ ok n → IsExclusive (fresh n)
unfolding new_node
fresh-IsExclusive k {n = n} e = record {
  base = n;
  valid = new_node-IsValid k e;
  past = inl (refl, ground arith);
  held = (refl, λ j. refl);
}

pub Turn-IsExclusive : {s u : Threads} → Turn s u → IsExclusive s → IsExclusive u
Turn-IsExclusive {s = s} (lock i e free u) x =
    let (found, others) = rw free at x.held in
    subst IsExclusive (sym u) (record {
      base = x.base;
      valid = x.valid;
      past = x.past;
      held = stays x.base s.node s.pc i entered found (λ j other. others j);
    })
Turn-IsExclusive {s = s} (look i t e span u) x =
    let (mine, found, others) = holder x.base s.node s.pc s.mu i x.held e (λ q. cc) in
    let inside = read-Inside x.base s.given t x.valid x.past span in
    subst IsExclusive (sym u) (record {
      base = x.base;
      valid = x.valid;
      past = x.past;
      held =
          rw (mine, found) (stays x.base (read x.base t).0 s.pc i (read x.base t).1 inside others);
    })
Turn-IsExclusive {s = s} (wait i now t e span u) x =
    let (mine, h, others) = holder x.base s.node s.pc s.mu i x.held e (λ q. cc) in
    subst IsExclusive (sym u) (record {
      base = x.base;
      valid = x.valid;
      past = x.past;
      held = rw mine (
          stays x.base s.node s.pc i (spin s.node now t) (spin-Inside x.base s.node now t span h)
            others);
    })
Turn-IsExclusive {s = s} (leave i now e u) x =
    let (mine, h, others) = holder x.base s.node s.pc s.mu i x.held e (λ q. cc) in
    subst IsExclusive (sym u) (record {
      base = finished s.node now;
      valid = Advances-IsValid x.valid h.0;
      past = leave-Past x.base s.node s.given now x.valid x.past h;
      held = empties (finished s.node now) s.pc i others;
    })

Turns-IsExclusive : {s u : Threads} → Turns s u → IsExclusive s → IsExclusive u
Turns-IsExclusive here x = x
Turns-IsExclusive (next r t) x = Turn-IsExclusive t (Turns-IsExclusive r x)

abbrev pub Descending : List ℕ → Type 0
Descending [] = Unit {0}
Descending (x ∷ xs) = Falling x xs

Past-Descending : (b : Node) (ids : List ℕ) → Past b ids → Descending ids
Past-Descending b [] p = tt
Past-Descending b (x ∷ xs) (inl (e, new)) = absurd (cc)
Past-Descending b (x ∷ xs) (inr (s, f)) = f.1

one_inside :
    (b n : Node) (pc : ℕ → Pc) (mu : Option ℕ) (i j : ℕ)
    → Held b n pc mu
    → pc i ≢ outside
    → pc j ≢ outside
    → i ≡ j
one_inside b n pc mu i j h p q =
    let (mine, _, _) = holder b n pc mu i h refl p in
    let (yours, _, _) = holder b n pc mu j h refl q in cc

-- However the calls of any number of goroutines on a new node are interleaved, and whatever times from
-- the 2 ^ 42 ms from the start of 2024 the clock shows them: at any time at most one goroutine is in
-- Generate, and the identifiers that have been returned, to whichever goroutine, are strictly
-- increasing in the order of their return, and so distinct.
pub Turns-Descending :
    (k : ℤ) {n : Node} {s : Threads}
    → new_node k ≡ ok n
    → Turns (fresh n) s
    → Descending s.given × ((i j : ℕ) → s.pc i ≢ outside → s.pc j ≢ outside → i ≡ j)
Turns-Descending k {s = s} new r =
    let x = Turns-IsExclusive r (fresh-IsExclusive k new) in
    (
      Past-Descending x.base s.given x.past,
      λ i j p q. one_inside x.base s.node s.pc s.mu i j x.held p q,
    )
