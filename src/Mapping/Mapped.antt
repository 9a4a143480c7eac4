-- ===== src/Mapping/Mapped.antt =====
-- The table that the launcher makes of a manifest (RebornLauncher/Mapping.cpp).
use reborn_launcher.Base.{
  ℕ, ◌≡◌, refl, ap, false, ◌||◌, ◌&&◌, List, [], ◌∷◌, Option, none, some, Text, if-cases, arith,
  All, ◌==◌,
}
use reborn_launcher.Deferred.{is_empty_text}
use reborn_launcher.Paths.{trim_ascii, is_space, drop_last_spaces, drop_spaces}
use reborn_launcher.Mapping.{
  Table, FileItem, put_key, map_item, mapped_files, drop_cr, to_upper_ascii, upper_char,
}
use reborn_launcher.Mapping.Store.{HasKeysOnce, put-HasKeysOnce, put-All}
use reborn_launcher.Mapping.Carried.{IsField, IsCarried}

-- What the launcher makes of every entry.
pub record IsMapped (entry : Text × Text) : Type 0 where
  pub named : is_empty_text entry.0 ≡ false
  pub filled : is_empty_text entry.1 ≡ false
  pub upper : to_upper_ascii entry.1 ≡ entry.1
  pub no_cr : drop_cr entry.1 ≡ entry.1

-- The characters that a line of the payload cannot carry are not there, and the hook's normal form of
-- the key is the key.
pub record IsPlain (normal : Text → Text) (entry : Text × Text) : Type 0 where
  pub key_fields : All IsField entry.0
  pub no_tab : All (λ c. (c == 9) ≡ false) entry.0
  pub normal_key : normal entry.0 ≡ entry.0
  pub value_fields : All IsField entry.1

cons-eq : (c d : ℕ) (s t : Text) → c ≡ d → s ≡ t → c ∷ s ≡ d ∷ t
cons-eq c d s t h k = cc

upper-twice : (s : Text) → to_upper_ascii (to_upper_ascii s) ≡ to_upper_ascii s
unfolding to_upper_ascii upper_char
upper-twice [] = refl
upper-twice (c ∷ s) =
    let here : upper_char (upper_char c) ≡ upper_char c = ground arith in
    let rest = upper-twice s in cons-eq _ _ _ _ here rest

upper-no_cr : (c : ℕ) → (c == 13) ≡ false → (upper_char c == 13) ≡ false
unfolding upper_char
upper-no_cr c h = ground arith

not_cr : (c : ℕ) → is_space c ≡ false → (c == 13) ≡ false
unfolding is_space
not_cr c h = ground arith

no_text : drop_cr (to_upper_ascii []) ≡ to_upper_ascii []
unfolding drop_cr to_upper_ascii
no_text = refl

last-kept :
    (c : ℕ) (rest : Text)
    → is_space c && is_empty_text rest ≡ false
    → drop_cr (to_upper_ascii rest) ≡ to_upper_ascii rest
    → drop_cr (to_upper_ascii (c ∷ rest)) ≡ to_upper_ascii (c ∷ rest)
unfolding drop_cr to_upper_ascii is_empty_text
last-kept c [] keeps h = let apart = upper-no_cr c (not_cr c (ground arith)) in rw apart refl
last-kept c (d ∷ rest) keeps h = ap (λ t. upper_char c ∷ t) h

drop_cr-upper :
    (s : Text) → drop_cr (to_upper_ascii (drop_last_spaces s)) ≡ to_upper_ascii (drop_last_spaces s)
unfolding drop_last_spaces
drop_cr-upper [] = no_text
drop_cr-upper (c ∷ s) =
    let rest = drop_cr-upper s in
    if-cases (λ t. drop_cr (to_upper_ascii t) ≡ to_upper_ascii t)
      (is_space c && is_empty_text (drop_last_spaces s)) _ _ (λ _. no_text)
      (λ keeps. last-kept c (drop_last_spaces s) keeps rest)

drop_cr-trim : (s : Text) → drop_cr (to_upper_ascii (trim_ascii s)) ≡ to_upper_ascii (trim_ascii s)
unfolding trim_ascii
drop_cr-trim s = drop_cr-upper (drop_spaces s)

abbrev pub AreMapped : Table → Type 0
AreMapped table = HasKeysOnce table × All IsMapped table

put_key-AreMapped :
    (o : Option Text) (raw : Text) (table : Table)
    → is_empty_text (to_upper_ascii (trim_ascii raw)) ≡ false
    → AreMapped table
    → AreMapped (put_key o (to_upper_ascii (trim_ascii raw)) table)
unfolding put_key
put_key-AreMapped none raw table filled h = h
put_key-AreMapped (some key) raw table filled (once, all) =
    let md5 = to_upper_ascii (trim_ascii raw) in
    if-cases AreMapped (is_empty_text key) _ _ (λ _. (once, all))
      (λ named. (
        put-HasKeysOnce key md5 table once,
        put-All IsMapped key md5 table
            (record {
              named = named;
              filled = filled;
              upper = upper-twice (trim_ascii raw);
              no_cr = drop_cr-trim raw;
            })
            all,
      ))

map_item-AreMapped :
    (full_key : Text → Option Text) (table : Table) (item : FileItem)
    → AreMapped table
    → AreMapped (map_item full_key table item)
unfolding map_item
map_item-AreMapped full_key table item h =
    let page = trim_ascii item.page in
    if-cases AreMapped (is_empty_text page || is_empty_text (to_upper_ascii (trim_ascii item.md5)))
      _ _ (λ _. h) (λ filled. put_key-AreMapped (full_key page) item.md5 table (ground arith) h)

pub mapped_files-AreMapped :
    (full_key : Text → Option Text) (items : List FileItem) (table : Table)
    → AreMapped table
    → AreMapped (mapped_files full_key table items)
unfolding mapped_files
mapped_files-AreMapped full_key [] table h = h
mapped_files-AreMapped full_key (item ∷ items) table h =
    mapped_files-AreMapped full_key items (map_item full_key table item)
      (map_item-AreMapped full_key table item h)

pub All-IsCarried :
    (normal : Text → Text) (table : Table)
    → All IsMapped table
    → All (IsPlain normal) table
    → All (IsCarried normal) table
All-IsCarried normal [] hm hp = tt
All-IsCarried normal (entry ∷ table) (m, hm) (p, hp) = (
  record {
    key_fields = p.key_fields;
    no_tab = p.no_tab;
    named = m.named;
    normal_key = p.normal_key;
    value_fields = p.value_fields;
    filled = m.filled;
    upper = m.upper;
    no_cr = m.no_cr;
  },
  All-IsCarried normal table hm hp,
)
