-- ===== src/Database/Search/Like.antt =====
-- `_like_fragment` of user_repository.py against ILIKE as PostgreSQL documents it: what is typed is
-- found as it stands, `%` and `_` included.
use Prim.Native.Char.{Char, code}
use Prim.Native.String.{◌++◌, char_at}
use text.Mathlib.TextLemmas.{nil-append, cons-append}
use text.Mathlib.TextEquality.{Char-path}
use auth_profile_service.Common.{
  String, ◌≡◌, refl, ◌∙◌, Bool, true, false, ◌&&◌, ◌||◌, Option, none, some, List, [], ◌∷◌, arith,
  nat_eq, if◌then◌else◌, has_prefix, has_part, Bool-cases, inl, inr,
}
use auth_profile_service.Database.Search.{replace, like_fragment, TextSearch}

-- What a pattern says about the text, piece by piece.
pub data Item : Type 0 where
  any_text any_char : Item
  letter : Char → Item

abbrev item_of : Char → Item
item_of c =
    if nat_eq (code c) b'%'
    then Item.any_text
    else if nat_eq (code c) b'_'
    then Item.any_char
    else Item.letter c

abbrev with_item : Item → Option (List Item) → Option (List Item)
with_item i none = none
with_item i (some rest) = some (i ∷ rest)

-- The pieces of a pattern whose escape is `!`; the server refuses a pattern that ends in it.
unfoldable pub items : String → Option (List Item)
items String.[] = some []
items (String.◌∷◌ c String.[]) = if nat_eq (code c) b'!' then none else some (item_of c ∷ [])
items (String.◌∷◌ c (String.◌∷◌ d s)) =
    let escaped = with_item (Item.letter d) (items s) in
    let plain = with_item (item_of c) (items (String.◌∷◌ d s)) in
    if nat_eq (code c) b'!' then escaped else plain

abbrev same_char : Char → Char → Bool
same_char c d = nat_eq (code c) (code d)

unfoldable pub matches : List Item → String → Bool
matches [] String.[] = true
matches [] (String.◌∷◌ d s) = false
matches (Item.any_text ∷ p) String.[] = matches p String.[]
matches (Item.any_text ∷ p) (String.◌∷◌ d s) =
    matches p (String.◌∷◌ d s) || matches (Item.any_text ∷ p) s
matches (Item.any_char ∷ p) String.[] = false
matches (Item.any_char ∷ p) (String.◌∷◌ d s) = matches p s
matches (Item.letter c ∷ p) String.[] = false
matches (Item.letter c ∷ p) (String.◌∷◌ d s) = same_char c d && matches p s

-- The text, and the letters of a pattern, as a locale folds their case: letter by letter, where a letter
-- may become several.
abbrev pub fold_text : (Char → String) → String → String
fold_text fold String.[] = String.[]
fold_text fold (String.◌∷◌ c s) = fold c ++ fold_text fold s

abbrev pub letters : String → List Item → List Item
letters String.[] p = p
letters (String.◌∷◌ c s) p = Item.letter c ∷ letters s p

abbrev pub fold_items : (Char → String) → List Item → List Item
fold_items fold [] = []
fold_items fold (Item.letter c ∷ p) = letters (fold c) (fold_items fold p)
fold_items fold (Item.any_text ∷ p) = Item.any_text ∷ fold_items fold p
fold_items fold (Item.any_char ∷ p) = Item.any_char ∷ fold_items fold p

-- What PostgreSQL documents of ILIKE, for a locale that folds case as `fold` does: it answers as LIKE does,
-- by the pieces of the pattern, up to the case of the locale.
pub record LikeLaws (server : TextSearch) (fold : Char → String) : Type 0 where
  pub ilike_lem :
      (text pattern : String) (p : List Item)
      → items pattern ≡ some p
      → server.ilike text pattern ≡ matches (fold_items fold p) (fold_text fold text)

abbrev is_special : Char → Bool
is_special c = nat_eq (code c) b'!' || (nat_eq (code c) b'%' || nat_eq (code c) b'_')

-- The three replacements at once.
pub escape : String → String
escape String.[] = String.[]
escape (String.◌∷◌ c s) =
    let rest = escape s in
    if is_special c then String.◌∷◌ (char_at "!" 0) (String.◌∷◌ c rest) else String.◌∷◌ c rest

pair_append :
    (c d : Char) (s : String)
    → String.◌∷◌ c (String.◌∷◌ d String.[]) ++ s ≡ String.◌∷◌ c (String.◌∷◌ d s)
pair_append c d s = rw (cons-append, cons-append, nil-append)

fragment-bang :
    (s : String)
    → like_fragment (String.◌∷◌ "!" s) ≡ String.◌∷◌ "!" (String.◌∷◌ "!" (like_fragment s))
unfolding like_fragment replace
fragment-bang s = rw (pair_append "!" "!" (replace b'!' "!!" s))

fragment-percent :
    (s : String)
    → like_fragment (String.◌∷◌ "%" s) ≡ String.◌∷◌ "!" (String.◌∷◌ "%" (like_fragment s))
unfolding like_fragment replace
fragment-percent s = rw (pair_append "!" "%" (replace b'%' "!%" (replace b'!' "!!" s)))

fragment-low :
    (s : String)
    → like_fragment (String.◌∷◌ "_" s) ≡ String.◌∷◌ "!" (String.◌∷◌ "_" (like_fragment s))
unfolding like_fragment replace
fragment-low s = rw (pair_append "!" "_" (like_fragment s))

char_of : (c d : Char) → nat_eq (code c) (code d) ≡ true → c ≡ d
char_of c d h = Char-path c d (ground arith)

escape-special :
    (c : Char) (s : String)
    → is_special c ≡ true
    → escape (String.◌∷◌ c s) ≡ String.◌∷◌ "!" (String.◌∷◌ c (escape s))
unfolding escape
escape-special c s h = rw h

pub like_fragment-eq-escape : (s : String) → like_fragment s ≡ escape s
unfolding like_fragment replace escape
like_fragment-eq-escape String.[] = refl
like_fragment-eq-escape (String.◌∷◌ c s) = elim (Bool-cases (nat_eq (code c) b'!')) [
  | inl e ↦ rw (char_of c "!" e) (fragment-bang s ∙ rw (like_fragment-eq-escape s))
  | inr e ↦ elim (Bool-cases (nat_eq (code c) b'%')) [
    | inl f ↦ rw (char_of c "%" f) (fragment-percent s ∙ rw (like_fragment-eq-escape s))
    | inr f ↦ elim (Bool-cases (nat_eq (code c) b'_')) [
      | inl g ↦ rw (char_of c "_" g) (fragment-low s ∙ rw (like_fragment-eq-escape s))
      | inr g ↦ simp (e, f, g) (rw (← like_fragment-eq-escape s))
    ]
  ]
]

items-plain :
    (c : Char) (s : String)
    → nat_eq (code c) b'!' ≡ false
    → items (String.◌∷◌ c s) ≡ with_item (item_of c) (items s)
unfolding items
items-plain c String.[] h = rw h
items-plain c (String.◌∷◌ d s) h = rw h

letters-append : (a b : String) (p : List Item) → letters (a ++ b) p ≡ letters a (letters b p)
letters-append String.[] b p = rw nil-append
letters-append (String.◌∷◌ c a) b p = rw (cons-append, letters, letters-append a b p)

-- The letters of a text are folded as the text is.
pub fold-letters :
    (fold : Char → String) (s : String) (p : List Item)
    → fold_items fold (letters s p) ≡ letters (fold_text fold s) (fold_items fold p)
fold-letters fold String.[] p = refl
fold-letters fold (String.◌∷◌ c s) p =
    rw (letters-append (fold c) (fold_text fold s), fold-letters fold s p)

pub items-escape :
    (s t : String) (p : List Item) → items t ≡ some p → items (escape s ++ t) ≡ some (letters s p)
unfolding escape items
items-escape String.[] t p h = rw (nil-append t) h
items-escape (String.◌∷◌ c s) t p h = elim (Bool-cases (is_special c)) [
  | inl e ↦ rw (e, cons-append, cons-append, items) (rw (items-escape s t p h))
  | inr e ↦
      rw (e, cons-append, items-plain c (escape s ++ t) (ground arith), items-escape s t p h)
        (ground arith)
]

matches_rest : (t : String) → matches (Item.any_text ∷ []) t ≡ true
unfolding matches
matches_rest String.[] = refl
matches_rest (String.◌∷◌ d t) = ground (arith, matches_rest t)

pub matches-letters : (s t : String) → matches (letters s (Item.any_text ∷ [])) t ≡ has_prefix s t
unfolding matches has_prefix
matches-letters String.[] t = matches_rest t
matches-letters (String.◌∷◌ c s) String.[] = refl
matches-letters (String.◌∷◌ c s) (String.◌∷◌ d t) = rw (matches-letters s t)

pub matches_within :
    (s t : String) → matches (Item.any_text ∷ letters s (Item.any_text ∷ [])) t ≡ has_part s t
unfolding has_part matches
matches_within s String.[] = rw (matches, matches-letters s String.[])
matches_within s (String.◌∷◌ d t) =
    rw (matches, matches-letters s (String.◌∷◌ d t), matches_within s t)

pub items-word :
    (t : String) (p : List Item)
    → items t ≡ some p
    → items ("% " ++ t) ≡ some (Item.any_text ∷ Item.letter " " ∷ p)
unfolding items
items-word t p h = rw (pair_append "%" " " t, items-plain " " t refl, h)
