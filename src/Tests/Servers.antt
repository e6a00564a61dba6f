-- ===== src/Tests/Servers.antt =====
-- A table and a cache as functions of the key, and a service over them.
use nanolink.Prelude.{
  ℕ, ◌+◌, ◌-◌, ◌*◌, ◌^◌, ◌≤◌, ◌≡◌, refl, sym, ap, ◌⊎◌, inl, inr, true, Option, none, some, arith,
  [], ◌∷◌, Str, codes, str_eq, str_eq_sound, str_eq_refl, length, replicate, leb, if◌then◌else◌,
  Bool-cases,
}
use nanolink.Prelude.Int.{ℤ, pos, negsuc, ltb_ℤ, ◌+ℤ◌, +ℤ_parts, ◌≤ℤ◌, ◌<ℤ◌}
use nanolink.Prelude.Result.{Result, ok, err}
use nanolink.Snowflake.{epoch}
use nanolink.Bloom.Words.{IsValid}
use nanolink.Storage.Postgres.{
  Row, Postgres, PostgresLaws, IsDeleted, inactive, owned_by, update_owned, update_row, active_only,
}
use nanolink.Storage.Redis.{Redis, RedisLaws, grace}
use nanolink.UrlService.World.{Env, World}
use nanolink.UrlService.Cache.{IsCoherent}

abbrev pub Table : Type 0
Table = Str → Option Row

abbrev added : Table → Row → Table
added db r = λ j. if str_eq r.short_code j then some (record r { id = 7 }) else db j

abbrev insert_free : Table → Row → Option Row → Table × Result ℕ
insert_free db r none = (added db r, ok 7)
insert_free db r (some x) = (db, err (codes "duplicate key"))

abbrev insert : Table → Row → Table × Result ℕ
insert db r =
    if leb (length r.short_code) 10
    then insert_free db r (db r.short_code)
    else (db, err (codes "value too long"))

abbrev parse : Str → Option ℕ
parse [] = none
parse (c ∷ s) = some c

abbrev pub table : Postgres
table = record {
  Uuid = ℕ;
  parse = parse;
  show = λ u. u ∷ [];
  nil_uuid = 0;
  Db = Table;
  insert = insert;
  select_active = λ db code. ok (active_only (db code));
  increment = λ db code. (db, ok tt);
  deactivate = λ db code. (λ j. if str_eq code j then update_row inactive (db j) else db j, ok tt);
  deactivate_owned =
      λ db code user. (λ j. if str_eq code j then update_owned user (db j) else db j, ok tt);
  select_by_user = λ db user limit offset. ok [];
}

pub insert_ok :
    (db db' : Table) (r : Row) (id : ℕ) (code : Str)
    → insert db r ≡ (db', ok id)
    → (length r.short_code ≤ 10)
      × (db r.short_code ≡ none)
      × (db' code ≡ (if str_eq r.short_code code then some (record r { id = 7 }) else db code))
insert_ok db db' r id code e = elim (Bool-cases (leb (length r.short_code) 10)) [
  | inr long ↦ absurd (cc (rw long at e))
  | inl fits ↦
      let (free, new) = from (db r.short_code) refl (rw fits at e) in (ground arith, free, new)
]
  where
    from :
        (o : Option Row)
        → db r.short_code ≡ o
        → insert_free db r o ≡ (db', ok id)
        → (db r.short_code ≡ none)
          × (db' code ≡ (if str_eq r.short_code code then some (record r { id = 7 }) else db code))
    from none p q =
        let same : added db r ≡ db' = ap (λ x. x.0) q in (p, sym (ap (λ f. f code) same))
    from (some x) p q = absurd (cc)

pub insert_err :
    (db db' : Table) (r : Row) (x : Str) (code : Str)
    → insert db r ≡ (db', err x)
    → db' code ≡ db code
insert_err db db' r x code e = elim (Bool-cases (leb (length r.short_code) 10)) [
  | inr long ↦ let q : db ≡ db' = ap (λ x. x.0) (rw long at e) in sym (ap (λ f. f code) q)
  | inl fits ↦ from (db r.short_code) (rw fits at e)
]
  where
    from : (o : Option Row) → insert_free db r o ≡ (db', err x) → db' code ≡ db code
    from none q = absurd (cc)
    from (some y) q = let p : db ≡ db' = ap (λ x. x.0) q in sym (ap (λ f. f code) p)

pub marked_kept :
    (db : Table) (code j : Str) (row : Row)
    → db j ≡ some row
    → (row' : Row) × ((if str_eq code j then update_row inactive (db j) else db j) ≡ some row')
      × (row'.long_url ≡ row.long_url)
marked_kept db code j row e = elim (Bool-cases (str_eq code j)) [
  | inl same ↦ (inactive row, rw (same, e) refl, refl)
  | inr other ↦ (row, rw other e, refl)
]

pub owned_kept :
    (db : Table) (code user j : Str) (row : Row)
    → db j ≡ some row
    → (row' : Row) × ((if str_eq code j then update_owned user (db j) else db j) ≡ some row')
      × (row'.long_url ≡ row.long_url)
owned_kept db code user j row e = elim (Bool-cases (str_eq code j)) [
  | inr other ↦ (row, rw other e, refl)
  | inl same ↦ elim (Bool-cases (owned_by row.user_id user)) [
    | inl own ↦ (inactive row, rw (same, e, own) refl, refl)
    | inr foreign ↦ (row, rw (same, e, foreign) refl, refl)
  ]
]

pub marked-IsDeleted :
    (db : Table) (code j : Str)
    → IsDeleted (db j)
    → IsDeleted (if str_eq code j then update_row inactive (db j) else db j)
marked-IsDeleted db code j (row, e, gone) = elim (Bool-cases (str_eq code j)) [
  | inl same ↦ (inactive row, rw (same, e) refl, refl)
  | inr other ↦ (row, rw other e, gone)
]

pub owned-IsDeleted :
    (db : Table) (code user j : Str)
    → IsDeleted (db j)
    → IsDeleted (if str_eq code j then update_owned user (db j) else db j)
owned-IsDeleted db code user j (row, e, gone) = elim (Bool-cases (str_eq code j)) [
  | inr other ↦ (row, rw other e, gone)
  | inl same ↦ elim (Bool-cases (owned_by row.user_id user)) [
    | inl own ↦ (inactive row, rw (same, e, own) refl, refl)
    | inr foreign ↦ (row, rw (same, e, foreign) refl, gone)
  ]
]

abbrev pub table_laws : PostgresLaws table
table_laws = record {
  rows = λ db code. db code;
  stored = λ id r. record r { id = 7 };
  stored_kept = λ id r. (refl, refl, refl);
  insert_ok = insert_ok;
  insert_err = λ db db' r x e. inl (λ code. insert_err db db' r x code e);
  select_ok = λ db code found e. cc;
  deactivate_ok = λ db db' code j u e. sym (ap (λ x. x.0 j) e);
  deactivate_owned_ok = λ db db' code user j u e. sym (ap (λ x. x.0 j) e);
  deactivate_kept = marked_kept;
  deactivate_owned_kept = owned_kept;
  increment_kept = λ db code j row e. (row, e, refl);
  deactivate_deleted = marked-IsDeleted;
  deactivate_owned_deleted = owned-IsDeleted;
  increment_deleted = λ db code j d. d;
}

abbrev pub Entries : Type 0
Entries = Str → Option (Str × ℤ)

abbrev fresh : ℤ → Option (Str × ℤ) → Result Str
fresh now none = err (codes "redis: nil")
fresh now (some (v, x)) = if ltb_ℤ now x then ok v else err (codes "redis: nil")

abbrev pub cache : Redis
cache = record {
  Kv = Entries;
  set = λ kv now key v ttl. (λ j. if str_eq key j then some (v, now +ℤ ttl) else kv j, ok tt);
  get = λ kv now key. fresh now (kv key);
  del = λ kv key. (λ j. if str_eq key j then none else kv j, ok tt);
  bf_add = λ kv key element. (kv, ok tt);
  bf_exists = λ kv key element. ok true;
}

pub fresh_ok :
    (o : Option (Str × ℤ)) (now : ℤ) (v : Str)
    → fresh now o ≡ ok v
    → (x : ℤ) × (o ≡ some (v, x)) × (now <ℤ x)
fresh_ok none now v e = absurd (cc)
fresh_ok (some (w, x)) now v e = elim (Bool-cases (ltb_ℤ now x)) [
  | inr late ↦ absurd (cc (rw late at e))
  | inl live ↦ let p : w ≡ v = cc (rw live at e) in (x, rw p refl, ground arith)
]

pub set_sound :
    (kv : Entries) (now : ℤ) (key v : Str) (ttl : ℤ) (j w : Str) (x : ℤ)
    → (if str_eq key j then some (v, now +ℤ ttl) else kv j) ≡ some (w, x)
    → (kv j ≡ some (w, x)) ⊎ ((key ≡ j) × (w ≡ v) × (x ≤ℤ now +ℤ ttl +ℤ grace))
set_sound kv now key v ttl j w x e = elim (Bool-cases (str_eq key j)) [
  | inr other ↦ inl (rw other at e)
  | inl same ↦
      let h : some (v, now +ℤ ttl) ≡ some (w, x) = rw same at e in
      let p : v ≡ w = cc in
      let q : now +ℤ ttl ≡ x = cc in
      inr (str_eq_sound key j same, sym p, rw (← q) (omega (arith, +ℤ_parts (now +ℤ ttl) grace)))
]

pub removed :
    (kv : Entries) (key j w : Str) (x : ℤ)
    → (if str_eq key j then none else kv j) ≡ some (w, x)
    → kv j ≡ some (w, x)
removed kv key j w x e = elim (Bool-cases (str_eq key j)) [
  | inr other ↦ rw other at e
  | inl same ↦ absurd (cc (rw same at e))
]

abbrev pub cache_laws : RedisLaws cache
cache_laws = record {
  entry = λ kv key. kv key;
  get_ok = λ kv now key v e. fresh_ok (kv key) now v e;
  set_sound = set_sound;
  del_sound = removed;
  del_ok = λ kv key u e. rw (str_eq_refl key) refl;
  bf_add_sound = λ kv key element j w x e. e;
}

-- A reading each millisecond from the first one of 2024.
abbrev pub site : Env
site = record {
  pg = table;
  rd = cache;
  clock = λ i. pos ((1704067200000 + i) * 1000000);
  fuel = 10;
  md5_hex = λ text. replicate 32 b'a';
  show_time = λ t. [];
  has_redis = true;
  base_url = codes "https://nano.link";
}

abbrev pub start : World site
start = record {
  db = λ code. none;
  kv = λ key. none;
  filter = record { bitset = replicate 2 0; m = 100; k = 3; count = 0 };
  node = record { epoch = epoch; node = pos 1; sequence = 0; last_stamp = negsuc 0 };
  ticks = 0;
}

pub start-IsCoherent : IsCoherent site table_laws cache_laws start
start-IsCoherent code v x e = absurd (cc)

pub start-IsValid : IsValid start.filter
start-IsValid = record { positive = omega arith; room = omega arith }

abbrev pub docs : Row
docs = record {
  id = 1;
  short_code = codes "docs";
  long_url = codes "https://example.org/a";
  custom_alias = true;
  user_id = some (7 ∷ []);
  created_at = pos 0;
  expires_at = none;
  click_count = pos 0;
  is_active = true;
}

-- a filter that may contain every code
abbrev pub linked : World site
linked = record start {
  db = λ code. if str_eq code (codes "docs") then some docs else none;
  filter = record { bitset = replicate 2 (2 ^ 64 - 1); m = 100; k = 3; count = 1 };
}
