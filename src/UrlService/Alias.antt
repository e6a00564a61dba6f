-- ===== src/UrlService/Alias.antt =====
-- The check of a custom alias, `^[a-zA-Z0-9_-]{3,30}$`, and the padding of short codes.
use nanolink.Prelude.{
  refl, not, ℕ, ◌-◌, ◌≡◌, Bool, true, ◌&&◌, ◌||◌, [], ◌∷◌, ◌++◌, Str, codes, length, replicate, leb,
  ltb, ◌==◌, if◌then◌else◌,
}

abbrev pub alias_char : ℕ → Bool
alias_char c =
    leb b'a' c && leb c b'z'
    || leb b'A' c && leb c b'Z'
    || leb b'0' c && leb c b'9'
    || c == b'_'
    || c == b'-'

unfoldable pub all_chars : (ℕ → Bool) → Str → Bool
all_chars p [] = true
all_chars p (c ∷ str) = p c && all_chars p str

-- `aliasRegex.MatchString(alias)`
unfoldable pub alias_ok : Str → Bool
unfolding all_chars
alias_ok alias = leb 3 (length alias) && leb (length alias) 30 && all_chars alias_char alias

-- `if len(shortCode) < 6 { shortCode = fmt.Sprintf("%06s", shortCode) }`
unfoldable pub pad_code : Str → Str
pad_code code = if ltb (length code) 6 then replicate (6 - length code) b'0' ++ code else code

alias_examples :
    (alias_ok (codes "gh-actions") && not (alias_ok (codes "ab") || alias_ok (codes "a b"))) ≡ true
unfolding alias_ok
alias_examples = refl
