-- ===== src/Common/Parts.antt =====
-- How the parts of a list, and what stands in them, go together.
use Prim.Native.Nat.{ℕ, zero, suc, ◌+◌, ◌≤◌}
use mathlib.Core.Path.{◌≡◌, refl, ap, ◌∙◌, subst}
use mathlib.Core.Logic.{◌⊎◌, inl, inr}
use mathlib.Core.Bool.{Bool, true}
use mathlib.Core.List.{List, [], ◌∷◌, ◌++◌, map}
use native.Mathlib.Omega.{arith}
use auth_profile_service.Common.Logic.{Bool-cases}
use auth_profile_service.Common.Lists.{length, take, drop, select, All, Has}

drop-read : {A : Type 0} (read unread : List A) → drop (length read) (read ++ unread) ≡ unread
drop-read [] unread = refl
drop-read (x ∷ read) unread = drop-read read unread

-- What a log holds from an offset on.
pub drop_unread :
    {A : Type 0} (log read unread : List A) (n : ℕ)
    → log ≡ read ++ unread
    → n ≡ length read
    → drop n log ≡ unread
drop_unread log read unread n e f = rw (e, f) (drop-read read unread)

drop_to_end : {A : Type 0} (xs : List A) → drop (length xs) xs ≡ []
drop_to_end [] = refl
drop_to_end (x ∷ xs) = drop_to_end xs

drop_nil : {A : Type 0} (n : ℕ) → drop {A = A} n [] ≡ []
drop_nil zero = refl
drop_nil (suc n) = refl

pub drop_all : {A : Type 0} (n : ℕ) (xs : List A) → drop (n + length (drop n xs)) xs ≡ []
drop_all zero xs =
    let e : 0 + length xs ≡ length xs = omega arith in ap (λ k. drop k xs) e ∙ drop_to_end xs
drop_all (suc n) [] = drop_nil (suc n + 0)
drop_all (suc n) (x ∷ xs) =
    let e : suc n + length (drop n xs) ≡ suc (n + length (drop n xs)) = omega arith in
    ap (λ k. drop k (x ∷ xs)) e ∙ drop_all n xs

pub take_all : {A : Type 0} (n : ℕ) (xs : List A) → length xs ≤ n → take n xs ≡ xs
unfolding take
take_all zero [] h = refl
take_all zero (x ∷ xs) h = ground arith
take_all (suc n) [] h = refl
take_all (suc n) (x ∷ xs) h = rw (take_all n xs (omega arith))

pub Has-map : {A B : Type 0} (f : A → B) (a : A) (xs : List A) → Has a xs → Has (f a) (map f xs)
Has-map f a [] h = elim h [ ]
Has-map f a (x ∷ xs) (inl e) = inl (ap f e)
Has-map f a (x ∷ xs) (inr h) = inr (Has-map f a xs h)

pub Has-map_append :
    {A B : Type 0} (f : A → B) (b : B) (xs ys : List A)
    → Has b (map f xs)
    → Has b (map f (xs ++ ys))
Has-map_append f b [] ys h = elim h [ ]
Has-map_append f b (x ∷ xs) ys (inl e) = inl e
Has-map_append f b (x ∷ xs) ys (inr h) = inr (Has-map_append f b xs ys h)

pub Has-select :
    {A : Type 0} (p : A → Bool) (a : A) (xs : List A) → p a ≡ true → Has a xs → Has a (select p xs)
unfolding select
Has-select p a [] e h = elim h [ ]
Has-select p a (x ∷ xs) e (inl f) = rw (f, e) (inl refl)
Has-select p a (x ∷ xs) e (inr h) =
    let rest = Has-select p a xs e h in
    elim (Bool-cases (p x)) [ inl f ↦ rw f (inr rest) | inr f ↦ rw f rest ]

pub Has-split : {A : Type 0} (a : A) (xs ys : List A) → Has a (xs ++ ys) → Has a xs ⊎ Has a ys
Has-split a [] ys h = inr h
Has-split a (x ∷ xs) ys (inl e) = inl (inl e)
Has-split a (x ∷ xs) ys (inr h) = elim (Has-split a xs ys h) [ inl g ↦ inl (inr g) | inr g ↦ inr g ]

pub All-Has : {A : Type 0} (P : A → Type 0) (a : A) (xs : List A) → All P xs → Has a xs → P a
All-Has P a [] all h = elim h [ ]
All-Has P a (x ∷ xs) all (inl e) = subst P e all.0
All-Has P a (x ∷ xs) all (inr h) = All-Has P a xs all.1 h

pub drop-append :
    {A : Type 0} (n : ℕ) (xs ys : List A) → n ≤ length xs → drop n (xs ++ ys) ≡ drop n xs ++ ys
drop-append zero xs ys h = refl
drop-append (suc n) [] ys h = ground arith
drop-append (suc n) (x ∷ xs) ys h = drop-append n xs ys (omega arith)

pub length-drop :
    {A : Type 0} (n : ℕ) (xs : List A) → n ≤ length xs → n + length (drop n xs) ≡ length xs
length-drop zero xs h = omega arith
length-drop (suc n) [] h = ground arith
length-drop (suc n) (x ∷ xs) h = omega (arith, length-drop n xs (omega arith))
