-- ===== src/Tests/Streams.antt =====
-- A stream and a ClickHouse table as lists.
use nanolink.Prelude.{
  Bool-cases, inl, str_eq, if◌then◌else◌, nothing_listed, ℕ, suc, zero, ◌+◌, ◌≤◌, ◌≡◌, refl, sym,
  ap, ◌∙◌, inr, Bool, true, false, Option, some, List, [], ◌∷◌, ◌++◌, Str, codes, length, take,
  drop, take-append-drop, length-append, arith,
}
use nanolink.Prelude.Int.{ℤ, pos, pos_part}
use nanolink.Prelude.Result.{Result, ok, err}
use nanolink.Storage.Stream.{Streams, StreamLaws, Message, replied}
use nanolink.Storage.ClickHouse.{ClickHouse, ClickHouseLaws, ClickRow}
use mathlib.Core.List.{Sublistᴰ, append_assoc, append-nil}

-- the entries delivered and those to come, whether there is a group, and what is acknowledged
pub record Queue : Type 0 where
  pub old : List Message
  pub new : List Message
  pub group : Bool
  pub acked : List Str

abbrev reads : Queue → ℕ → Bool → Queue × Result (Option (List (List Message)))
reads q n true =
    (record q { old = q.old ++ take n q.new; new = drop n q.new }, ok (some (take n q.new ∷ [])))
reads q n false = (q, err (codes "NOGROUP"))

abbrev pub stream : Streams
stream = record {
  Log = Queue;
  xadd = λ q key text.
      (record q { new = q.new ++ (record { id = codes "1-0"; payload = some text }) ∷ [] }, ok tt);
  xread_group = λ q key group consumer count. reads q (pos_part count) q.group;
  xack = λ q key group ids. (record q { acked = q.acked ++ ids }, ok tt);
}

take_taken : (n : ℕ) (xs : List Message) → take (length (take n xs)) xs ≡ take n xs
take_taken zero xs = refl
take_taken (suc n) [] = refl
take_taken (suc n) (x ∷ xs) = ap (λ r. x ∷ r) (take_taken n xs)

length-take : (n : ℕ) (xs : List Message) → length (take n xs) ≤ n
length-take zero xs = omega arith
length-take (suc n) [] = omega arith
length-take (suc n) (x ∷ xs) = omega (arith, length-take n xs)

drop_old : (xs ys : List Message) → drop (length xs) (xs ++ ys) ≡ ys
drop_old [] ys = refl
drop_old (x ∷ xs) ys = drop_old xs ys

reads_kept :
    (q : Queue) (n : ℕ) (b : Bool)
    → (let q' = (reads q n b).0 in
        (q'.old ++ q'.new ≡ q.old ++ q.new) × (q'.group ≡ q.group) × (length q.old ≤ length q'.old))
reads_kept q n true = (
  append_assoc q.old (take n q.new) (drop n q.new)
      ∙ ap (λ r. q.old ++ r) (take-append-drop n q.new),
  refl,
  omega (arith, length-append q.old (take n q.new)),
)
reads_kept q n false = (refl, refl, omega arith)

reads_ok :
    (q : Queue) (n : ℕ) (b : Bool) (found : Option (List (List Message)))
    → q.group ≡ b
    → (reads q n b).1 ≡ ok found
    → (q.group ≡ true)
      × ((k : ℕ) × (replied found ≡ take k (drop (length q.old) (q.old ++ q.new)))
          × (k ≤ n)
          × (length (reads q n b).0.old ≡ length q.old + k))
reads_ok q n true found g e =
    let p : some (take n q.new ∷ []) ≡ found = cc in
    (
      g,
      (
        length (take n q.new),
        sym (ap replied p)
            ∙ append-nil (take n q.new)
            ∙ sym (take_taken n q.new)
            ∙ sym (ap (take (length (take n q.new))) (drop_old q.old q.new)),
        length-take n q.new,
        length-append q.old (take n q.new),
      ),
    )
reads_ok q n false found g e = absurd (cc)

pub stream_laws_read :
    (q : Queue) (consumer : Str) (count : ℤ) (found : Option (List (List Message)))
    → (reads q (pos_part count) q.group).1 ≡ ok found
    → (q.group ≡ true)
      × ((k : ℕ) × (replied found ≡ take k (drop (length q.old) (q.old ++ q.new)))
          × (k ≤ pos_part count)
          × (length (reads q (pos_part count) q.group).0.old ≡ length q.old + k))
stream_laws_read q consumer count found e = reads_ok q (pos_part count) q.group found refl e

pub stream_laws_kept :
    (q : Queue) (consumer : Str) (count : ℤ)
    → (let q' = (reads q (pos_part count) q.group).0 in
        (q'.old ++ q'.new ≡ q.old ++ q.new) × (q'.group ≡ q.group) × (length q.old ≤ length q'.old))
stream_laws_kept q consumer count = reads_kept q (pos_part count) q.group

pub within : (xs ys : List Message) → length xs ≤ length (xs ++ ys)
within xs ys = omega (arith, length-append xs ys)

abbrev pub stream_laws : StreamLaws stream
stream_laws = record {
  entries = λ q. q.old ++ q.new;
  delivered = λ q. length q.old;
  has_group = λ q. q.group;
  delivered_le = λ q. within q.old q.new;
  xadd_entries = λ q text. inr (codes "1-0", sym (append_assoc q.old q.new _));
  xadd_group = λ q text. (refl, refl);
  xread_ok = stream_laws_read;
  xread_kept = stream_laws_kept;
  xack_kept = λ q ids. (refl, refl, refl);
}

abbrev pub clicks : ClickHouse
clicks = record {
  Db = List ClickRow;
  Tx = List ClickRow;
  begin_tx = λ db. (db, ok []);
  prepare = λ tx. (tx, ok tt);
  exec = λ tx row. (tx ++ row ∷ [], ok tt);
  commit = λ db tx. (db ++ tx, ok tt);
  rollback = λ db tx. db;
  count = λ db code. ok (pos (length db));
}

abbrev pub clicks_laws : ClickHouseLaws clicks
clicks_laws = record {
  rows = λ db. db;
  buffered = λ tx. tx;
  begin_kept = λ db. refl;
  begin_empty = λ db tx e. let p : [] ≡ tx = cc in sym p;
  prepare_kept = λ tx. refl;
  exec_ok = λ tx row u e. refl;
  commit_ok = λ db tx u e. refl;
  commit_err = λ db tx e h. absurd (cc);
  rollback_kept = λ db tx. refl;
}

-- a server that stores rows with a code only, and whose commit fails after the first row
abbrev pub failing : ClickHouse
failing = record clicks {
  exec = λ tx row.
      if str_eq row.short_code [] then (tx, err (codes "no code")) else (tx ++ row ∷ [], ok tt);
  commit = λ db tx. (db ++ take 1 tx, err (codes "connection reset"));
}

pub failing_exec :
    (tx : List ClickRow) (row : ClickRow) (u : Unit {0})
    → (failing.exec tx row).1 ≡ ok u
    → (failing.exec tx row).0 ≡ tx ++ row ∷ []
failing_exec tx row u e = elim (Bool-cases (str_eq row.short_code [])) [
  | inl empty ↦ absurd (cc (rw empty at e))
  | inr full ↦ rw full refl
]

pub first_of : (tx : List ClickRow) → Sublistᴰ (take 1 tx) tx
first_of [] = Sublistᴰ.slnil
first_of (x ∷ tx) = Sublistᴰ.cons-cons refl (nothing_listed tx)

abbrev pub failing_laws : ClickHouseLaws failing
failing_laws = record {
  rows = λ db. db;
  buffered = λ tx. tx;
  begin_kept = λ db. refl;
  begin_empty = λ db tx e. let p : [] ≡ tx = cc in sym p;
  prepare_kept = λ tx. refl;
  exec_ok = failing_exec;
  commit_ok = λ db tx u e. absurd (cc);
  commit_err = λ db tx e h. (take 1 tx, first_of tx, refl);
  rollback_kept = λ db tx. refl;
}
