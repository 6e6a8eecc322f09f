-- ===== src/Manager/Listing.antt =====
-- The order in which the configuration directory lists its files.
use mathlib.Core.List.Permᴰ as Permutation
use mathlib.Core.List.{Permᴰ}
use docker_socket_policy.Base.{
  Text, Bool, true, false, List, [], ◌∷◌, ◌≡◌, refl, sym, ap, ◌∙◌, subst, Elem, filter, map, Result,
  ok, Bool-cases, inl, inr, text_ltb, Elem-of_filter, ◌>>=◌,
}
use docker_socket_policy.Base.Order.{text_ltb-asym, text_ltb-antisym, text_ltb-above}
use docker_socket_policy.Policy.{Regex, Policy}
use docker_socket_policy.Manager.Load.{
  File, listing, is_policy_file, policy_files, insert_file, sort_files, nothing_loaded, load_files,
  load_entries, manager_of, new,
}

abbrev pub SameIfNamed : File → File → Type 0
SameIfNamed f g = f.file ≡ g.file → f ≡ g

insert_file-after :
    (f x : File) (fs : List File)
    → text_ltb x.file f.file ≡ true
    → insert_file f (x ∷ fs) ≡ x ∷ insert_file f fs
unfolding insert_file
insert_file-after f x fs h = rw (insert_file, h) refl

insert_file-before :
    (f x : File) (fs : List File)
    → text_ltb x.file f.file ≡ false
    → insert_file f (x ∷ fs) ≡ f ∷ x ∷ fs
unfolding insert_file
insert_file-before f x fs h = rw (insert_file, h) refl

insert_file-below :
    (f g : File)
    → text_ltb f.file g.file ≡ true
    → text_ltb g.file f.file ≡ false
    → (fs : List File) → insert_file f (insert_file g fs) ≡ insert_file g (insert_file f fs)
unfolding insert_file
insert_file-below f g fg gf [] = insert_file-before f g [] gf ∙ sym (insert_file-after g f [] fg)
insert_file-below f g fg gf (x ∷ xs) = elim (Bool-cases (text_ltb x.file g.file)) [
  | inr xg ↦
      let xf : text_ltb x.file f.file ≡ false = not_below xg in
      ap (insert_file f) (insert_file-before g x xs xg)
      ∙ insert_file-before f g (x ∷ xs) gf
      ∙ ap (λ rest. f ∷ rest) (sym (insert_file-before g x xs xg))
      ∙ sym (insert_file-after g f (x ∷ xs) fg)
      ∙ ap (insert_file g) (sym (insert_file-before f x xs xf))
  | inl xg ↦ elim (Bool-cases (text_ltb x.file f.file)) [
    | inl xf ↦
        ap (insert_file f) (insert_file-after g x xs xg)
        ∙ insert_file-after f x (insert_file g xs) xf
        ∙ ap (λ rest. x ∷ rest) (insert_file-below f g fg gf xs)
        ∙ sym (insert_file-after g x (insert_file f xs) xg)
        ∙ ap (insert_file g) (sym (insert_file-after f x xs xf))
    | inr xf ↦
        ap (insert_file f) (insert_file-after g x xs xg)
        ∙ insert_file-before f x (insert_file g xs) xf
        ∙ ap (λ rest. f ∷ rest) (sym (insert_file-after g x xs xg))
        ∙ sym (insert_file-after g f (x ∷ xs) fg)
        ∙ ap (insert_file g) (sym (insert_file-before f x xs xf))
  ]
]
  where
    not_below : text_ltb x.file g.file ≡ false → text_ltb x.file f.file ≡ false
    not_below xg = elim (Bool-cases (text_ltb x.file f.file)) [
      | inl xf ↦ let above = text_ltb-above x.file g.file f.file xf xg in cc
      | inr xf ↦ xf
    ]

insert_file_comm :
    (f g : File)
    → SameIfNamed f g
    → (fs : List File) → insert_file f (insert_file g fs) ≡ insert_file g (insert_file f fs)
insert_file_comm f g same fs = elim (Bool-cases (text_ltb f.file g.file)) [
  | inl fg ↦ insert_file-below f g fg (text_ltb-asym f.file g.file fg) fs
  | inr fg ↦ elim (Bool-cases (text_ltb g.file f.file)) [
    | inl gf ↦ sym (insert_file-below g f gf fg fs)
    | inr gf ↦
        subst (λ x. insert_file f (insert_file x fs) ≡ insert_file x (insert_file f fs))
          (same (text_ltb-antisym f.file g.file fg gf)) refl
  ]
]

-- Files of one name are one file.
abbrev pub NamesFiles : List File → Type 0
NamesFiles fs = (f g : File) → Elem f fs → Elem g fs → SameIfNamed f g

Elem-Permᴰ : {x : File} {fs gs : List File} → Permᴰ fs gs → Elem x gs → Elem x fs
Elem-Permᴰ Permᴰ.nil e = e
Elem-Permᴰ (Permᴰ.cons {a = a} {l₁ = l} same p) Elem.here =
    subst (λ y. Elem y (a ∷ l)) same Elem.here
Elem-Permᴰ (Permᴰ.cons same p) (Elem.there e) = Elem.there (Elem-Permᴰ p e)
Elem-Permᴰ (Permᴰ.swap {a = a} {b = b} {l = l} s1 s2) Elem.here =
    subst (λ y. Elem y (a ∷ b ∷ l)) s2 (Elem.there Elem.here)
Elem-Permᴰ (Permᴰ.swap {a = a} {b = b} {l = l} s1 s2) (Elem.there Elem.here) =
    subst (λ y. Elem y (a ∷ b ∷ l)) s1 Elem.here
Elem-Permᴰ (Permᴰ.swap s1 s2) (Elem.there (Elem.there e)) = Elem.there (Elem.there e)
Elem-Permᴰ (Permᴰ.trans p q) e = Elem-Permᴰ p (Elem-Permᴰ q e)

sort_files-Permᴰ : {fs gs : List File} → Permᴰ fs gs → NamesFiles fs → sort_files fs ≡ sort_files gs
unfolding sort_files
sort_files-Permᴰ Permᴰ.nil names = refl
sort_files-Permᴰ (Permᴰ.cons {b = b} {l₁ = fs} same p) names =
    ap (λ f. insert_file f (sort_files fs)) same
    ∙ ap (insert_file b) (sort_files-Permᴰ p (λ f g e k. names f g (Elem.there e) (Elem.there k)))
sort_files-Permᴰ (Permᴰ.swap {a = a} {b = b} {a' = a'} {l = l} s1 s2) names =
    insert_file_comm a b (names a b Elem.here (Elem.there Elem.here)) (sort_files l)
    ∙ ap (λ f. insert_file f (insert_file a (sort_files l))) s2
    ∙ ap (λ f. insert_file a' (insert_file f (sort_files l))) s1
sort_files-Permᴰ (Permᴰ.trans p q) names =
    sort_files-Permᴰ p names
    ∙ sort_files-Permᴰ q (λ f g e k. names f g (Elem-Permᴰ p e) (Elem-Permᴰ p k))

filter-swap :
    (p : File → Bool) (a b : File) (l : List File)
    → Permᴰ (filter p (a ∷ b ∷ l)) (filter p (b ∷ a ∷ l))
filter-swap p a b l = elim (Bool-cases (p a)) [
  | inl pa ↦ elim (Bool-cases (p b)) [
    | inl pb ↦ rw (pa, pb) (Permᴰ.swap refl refl)
    | inr pb ↦ rw (pa, pb) (Permutation.refl _)
  ]
  | inr pa ↦ elim (Bool-cases (p b)) [
    | inl pb ↦ rw (pa, pb) (Permutation.refl _)
    | inr pb ↦ rw (pa, pb) (Permutation.refl _)
  ]
]

filter-Permᴰ :
    (p : File → Bool) {fs gs : List File} → Permᴰ fs gs → Permᴰ (filter p fs) (filter p gs)
filter-Permᴰ p Permᴰ.nil = Permᴰ.nil
filter-Permᴰ p (Permᴰ.cons {a = a} {b = b} {l₁ = fs} {l₂ = gs} same q) =
    subst (λ x. Permᴰ (filter p (a ∷ fs)) (filter p (x ∷ gs))) same
      (elim (Bool-cases (p a)) [
        | inl t ↦ rw t (Permᴰ.cons refl (filter-Permᴰ p q))
        | inr f ↦ rw f (filter-Permᴰ p q)
      ])
filter-Permᴰ p (Permᴰ.swap {a = a} {b = b} {b' = b'} {l = l} s1 s2) =
    subst (λ y. Permᴰ (filter p (a ∷ b ∷ l)) (filter p (y ∷ b' ∷ l))) s2
      (subst (λ y. Permᴰ (filter p (a ∷ b ∷ l)) (filter p (b ∷ y ∷ l))) s1 (filter-swap p a b l))
filter-Permᴰ p (Permᴰ.trans q r) = Permᴰ.trans (filter-Permᴰ p q) (filter-Permᴰ p r)

policy_files-ok :
    (fs : List File) → policy_files (map ok fs) ≡ ok (filter (λ f. is_policy_file f.file) fs)
unfolding policy_files
policy_files-ok [] = refl
policy_files-ok (f ∷ fs) = rw (policy_files, policy_files-ok fs) refl

load_listing :
    (re : Regex) (yaml : Text → Result Text Policy) (dir : Text) (fs : List File)
    → new re yaml dir (listing (map ok fs)) ≡ (
        load_files re yaml dir (sort_files (filter (λ f. is_policy_file f.file) fs)) nothing_loaded
        >>= manager_of)
unfolding new load_entries
load_listing re yaml dir fs = rw (policy_files-ok fs) refl

-- Loading the policies gives the same manager, or the same error, in whatever order the directory lists
-- its files, where no entry is an error and no two different files have one name.
pub new-Permᴰ :
    (re : Regex) (yaml : Text → Result Text Policy) (dir : Text) (fs gs : List File)
    → Permᴰ fs gs
    → NamesFiles fs
    → new re yaml dir (listing (map ok fs)) ≡ new re yaml dir (listing (map ok gs))
new-Permᴰ re yaml dir fs gs p names =
    let sorted =
      sort_files-Permᴰ (filter-Permᴰ (λ f. is_policy_file f.file) p)
        (λ f g e k. names f g (Elem-of_filter _ fs e).0 (Elem-of_filter _ fs k).0) in
    load_listing re yaml dir fs
    ∙ ap (λ files. load_files re yaml dir files nothing_loaded >>= manager_of) sorted
    ∙ sym (load_listing re yaml dir gs)
