-- ===== src/Mapping/Carried.antt =====
-- What the games' hook reads of the table that the launcher publishes (RebornLauncher/Mapping.cpp and
-- CryptoLoader/dllmain.cpp).
use reborn_launcher.Base.{
  ap, ℕ, ◌≡◌, refl, ◌∙◌, subst, false, List, [], ◌∷◌, ◌++◌, Option, none, some, Text, text_eq,
  text_eq_iff, Bool-cases, inl, inr, All, All-append, ◌==◌,
}
use reborn_launcher.Deferred.{is_empty_text}
use reborn_launcher.Lines.{getlines, getlines-line}
use reborn_launcher.Mapping.{
  before_tab, put_field, Table, put, find_value, payload_of, drop_cr, split_tab, parse_line,
  parse_lines, to_upper_ascii, view_text,
}
use reborn_launcher.Mapping.Store.{HasKeysOnce, find_value-put}

-- Neither a line end nor a NUL.
abbrev pub IsField : ℕ → Type 0
IsField c = ((c == 10) ≡ false) × ((c == 0) ≡ false)

-- An entry that a line carries: the key has no tab and is a normal one, and the hash is in upper case
-- and does not end in '\r'.
pub record IsCarried (normal : Text → Text) (entry : Text × Text) : Type 0 where
  pub key_fields : All IsField entry.0
  pub no_tab : All (λ c. (c == 9) ≡ false) entry.0
  pub named : is_empty_text entry.0 ≡ false
  pub normal_key : normal entry.0 ≡ entry.0
  pub value_fields : All IsField entry.1
  pub filled : is_empty_text entry.1 ≡ false
  pub upper : to_upper_ascii entry.1 ≡ entry.1
  pub no_cr : drop_cr entry.1 ≡ entry.1

drop_cr-behind :
    (key value : Text)
    → is_empty_text value ≡ false
    → drop_cr value ≡ value
    → drop_cr (key ++ 9 ∷ value) ≡ key ++ 9 ∷ value
unfolding drop_cr is_empty_text
drop_cr-behind [] (c ∷ value) filled h = ap (λ s. 9 ∷ s) h
drop_cr-behind (k ∷ []) (c ∷ value) filled h = ap (λ s. k ∷ 9 ∷ s) h
drop_cr-behind (k ∷ l ∷ key) value filled h =
    ap (λ s. k ∷ s) (drop_cr-behind (l ∷ key) value filled h)
drop_cr-behind _ [] filled h = cc

split_tab-at :
    (key value : Text)
    → All (λ c. (c == 9) ≡ false) key
    → split_tab (key ++ 9 ∷ value) ≡ some (key, value)
unfolding split_tab before_tab
split_tab-at [] value h = refl
split_tab-at (c ∷ key) value (apart, h) =
    let rest = split_tab-at key value h in rw (apart, rest) refl

no_newlines : (s : Text) → All IsField s → All (λ c. (c == 10) ≡ false) s
no_newlines [] h = tt
no_newlines (c ∷ s) h = (h.0.0, no_newlines s h.1)

line-of :
    (key value : Text)
    → All IsField key
    → All IsField value
    → All (λ c. (c == 10) ≡ false) (key ++ 9 ∷ value)
line-of [] value hk hv = (refl, no_newlines value hv)
line-of (c ∷ key) value hk hv = (hk.0.0, line-of key value hk.1 hv)

parse_line-put :
    (normal : Text → Text) (table : Table) (key value : Text)
    → IsCarried normal (key, value)
    → parse_line normal table (key ++ 9 ∷ value) ≡ put key value table
unfolding parse_line put_field
parse_line-put normal table key value c =
    rw (drop_cr-behind key value c.filled c.no_cr, split_tab-at key value c.no_tab)
      (rw (c.normal_key, c.upper, c.named, c.filled) refl)

-- A find_value in one table, and else in another.
unfoldable pub or_in : Option Text → Option Text → Option Text
or_in none other = other
or_in (some v) other = some v

parse_lines-cons :
    (normal : Text → Text) (table : Table) (line : Text) (lines : List Text)
    → parse_lines normal table (line ∷ lines)
      ≡ parse_lines normal (parse_line normal table line) lines
unfolding parse_lines
parse_lines-cons normal table line lines = refl

no_lines :
    (normal : Text → Text) (j : Text) (table : Table)
    → find_value j (parse_lines normal table (getlines [])) ≡ find_value j table
unfolding parse_lines getlines
no_lines normal j table = refl

pub find_value-parse_lines :
    (normal : Text → Text) (j : Text) (entries table : Table)
    → HasKeysOnce entries
    → All (IsCarried normal) entries
    → find_value j (parse_lines normal table (getlines (payload_of entries)))
      ≡ or_in (find_value j entries) (find_value j table)
unfolding payload_of find_value or_in
find_value-parse_lines normal j [] table once all = no_lines normal j table
find_value-parse_lines normal j ((k, v) ∷ entries) table (new, once) (c, all) =
    let line = line-of k v c.key_fields c.value_fields in
    let rest = find_value-parse_lines normal j entries (put k v table) once all in
    let here = find_value-put k v j table in
    rw
      (
        getlines-line (k ++ 9 ∷ v) (payload_of entries) line,
        parse_lines-cons normal table (k ++ 9 ∷ v) (getlines (payload_of entries)),
        parse_line-put normal table k v c,
        rest,
      )
      (elim (Bool-cases (text_eq k j)) [
        | inl same ↦
            let gone = subst (λ i. find_value i entries ≡ none) ((text_eq_iff k j).0 same) new in
            rw (same, gone) (here ∙ (rw same refl))
        | inr apart ↦ rw (here, apart) refl
      ])

abbrev pub IsNonzero : ℕ → Type 0
IsNonzero c = (c == 0) ≡ false

IsNonzero-fields : (s : Text) → All IsField s → All IsNonzero s
IsNonzero-fields [] h = tt
IsNonzero-fields (c ∷ s) h = (h.0.1, IsNonzero-fields s h.1)

pub payload-IsNonzero :
    (normal : Text → Text) (entries : Table)
    → All (IsCarried normal) entries
    → All IsNonzero (payload_of entries)
unfolding payload_of
payload-IsNonzero normal [] all = tt
payload-IsNonzero normal ((k, v) ∷ entries) (c, all) =
    let key = IsNonzero-fields k c.key_fields in
    let value = IsNonzero-fields v c.value_fields in
    All-append IsNonzero (k ++ 9 ∷ v) (10 ∷ payload_of entries)
      (All-append IsNonzero k (9 ∷ v) key (refl, value))
      (refl, payload-IsNonzero normal entries all)

pub view_text-nul : (s rest : Text) → All IsNonzero s → view_text (s ++ 0 ∷ rest) ≡ s
unfolding view_text
view_text-nul [] rest h = refl
view_text-nul (c ∷ s) rest (apart, h) = let tail = view_text-nul s rest h in rw (apart, tail) refl
