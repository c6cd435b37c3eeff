-- ===== src/Files/Paths/Laws.antt =====
-- What a resolved path is.
use mathlib.Core.List.{append_assoc}
use mathlib.Core.Path.{subst}
use talos_panel.Base.{
  any, select, ◌≡◌, refl, Bool, true, false, List, [], ◌∷◌, ◌++◌, arith, Bool-cases, inl, inr, not,
  ◌||◌, ◌&&◌,
}
use talos_panel.Base.Text.{Text, text_eq, codes, has_prefix, split_on}
use talos_panel.Files.Paths.{
  FileTree, is_link, is_dots, is_protected, passes_link, is_bad_character, path_parts,
  relative_path, resolve_server_path,
}
use talos_panel.Http.{Result, Result-cases}

-- A path that stays below the directory: no part leads up or is empty, none of its beginnings is a
-- link, and the panel's own directory is not its first part.
pub record IsConfined (tree : FileTree) (parts : List Text) : Type 0 where
  pub no_dots : any is_dots parts ≡ false
  pub no_empty : any (λ part. text_eq part []) parts ≡ false
  pub not_protected : is_protected parts ≡ false
  pub inside : tree.resolves_inside parts ≡ true
  pub no_link :
      (front rest : List Text) (part : Text)
      → parts ≡ front ++ (part ∷ rest)
      → is_link (tree.kind (front ++ part ∷ [])) ≡ false

passes_link-no_link :
    (tree : FileTree) (done parts front rest : List Text) (part : Text)
    → passes_link tree done parts ≡ false
    → parts ≡ front ++ (part ∷ rest)
    → is_link (tree.kind (done ++ (front ++ part ∷ []))) ≡ false
unfolding passes_link
passes_link-no_link tree done [] [] rest part h e = absurd (cc e)
passes_link-no_link tree done [] (q ∷ front) rest part h e = absurd (cc e)
passes_link-no_link tree done (x ∷ parts) [] rest part h e =
    let same : x ≡ part = cc e in
    subst (λ y. is_link (tree.kind (done ++ (y ∷ []))) ≡ false) same (ground arith)
passes_link-no_link tree done (x ∷ parts) (q ∷ front) rest part h e =
    let same : x ≡ q = cc e in
    let tail' : parts ≡ front ++ (part ∷ rest) = cc e in
    let ih = passes_link-no_link tree (done ++ x ∷ []) parts front rest part (ground arith) tail' in
    subst (λ y. is_link (tree.kind (done ++ (y ∷ (front ++ part ∷ [])))) ≡ false) same
      (subst (λ l. is_link (tree.kind l) ≡ false) (append_assoc done (x ∷ []) (front ++ part ∷ []))
        ih)

select-any :
    {A : Type 0} (p q : A → Bool) (xs : List A)
    → ((x : A) → q x ≡ true → p x ≡ false)
    → any p (select q xs) ≡ false
select-any p q [] h = refl
select-any p q (x ∷ xs) h = ground (arith, select-any p q xs h, h x)

parts_of : (a b : Bool) → not (a || b) ≡ true → a ≡ false
parts_of a b h = ground arith

or_false_right : (a b : Bool) → (a || b) ≡ false → b ≡ false
or_false_right a b h = ground arith

-- The parts that a path is split into.
path_parts-full : (value : Text) → any (λ part. text_eq part []) (path_parts value) ≡ false
unfolding path_parts
path_parts-full value =
    select-any (λ part. text_eq part []) (λ part. not (text_eq part [] || text_eq part (codes ".")))
      (split_on b'/' value) (λ part h. parts_of (text_eq part []) (text_eq part (codes ".")) h)

relative_path_inv :
    (value : Text) (parts : List Text)
    → relative_path value ≡ Result.ok parts
    → (path_parts value ≡ parts) × (any is_dots (path_parts value) ≡ false)
unfolding relative_path
relative_path_inv value parts h = elim (Bool-cases (any is_bad_character value)) [
  | inl bad ↦ absurd (ground arith)
  | inr good ↦ elim (Bool-cases (has_prefix value (codes "/") || any is_dots (path_parts value))) [
    | inl outside ↦ absurd (ground arith)
    | inr below ↦ (ground arith, or_false_right (has_prefix value (codes "/")) _ below)
  ]
]

-- The checks that an accepted path has passed.
resolve_server_path_inv :
    (tree : FileTree) (value : Text) (allow_root : Bool) (parts : List Text)
    → resolve_server_path tree value allow_root ≡ Result.ok parts
    → (relative_path value ≡ Result.ok parts)
      × (is_protected parts ≡ false)
      × (tree.resolves_inside parts ≡ true)
      × (passes_link tree [] parts ≡ false)
      × ((not allow_root && tree.resolves_to_root parts) ≡ false)
unfolding resolve_server_path
resolve_server_path_inv tree value allow_root parts h = elim (Bool-cases tree.root_is_link) [
  | inl linked ↦ absurd (ground arith)
  | inr plain ↦ elim (Result-cases (relative_path value)) [
    | inl (e, r) ↦ absurd (ground arith)
    | inr (found, r) ↦ elim (Bool-cases (is_protected found)) [
      | inl bad ↦ absurd (ground arith)
      | inr a ↦ elim (Bool-cases (tree.resolves_inside found)) [
        | inr bad ↦ absurd (ground arith)
        | inl b ↦ elim (Bool-cases (passes_link tree [] found)) [
          | inl bad ↦ absurd (ground arith)
          | inr c ↦ elim (Bool-cases (not allow_root && tree.resolves_to_root found)) [
            | inl bad ↦ absurd (ground arith)
            | inr d ↦
                let same : found ≡ parts = ground arith in
                subst
                  (λ q.
                    (relative_path value ≡ Result.ok q)
                    × (is_protected q ≡ false)
                    × (tree.resolves_inside q ≡ true)
                    × (passes_link tree [] q ≡ false)
                    × ((not allow_root && tree.resolves_to_root q) ≡ false))
                  same (r, a, b, c, d)
          ]
        ]
      ]
    ]
  ]
]

-- A path that is accepted stays below the directory of the server, passes no link, and is not in the
-- part that the panel manages; where the directory itself is not allowed, it is another path.
pub resolve_server_path-IsConfined :
    (tree : FileTree) (value : Text) (allow_root : Bool) (parts : List Text)
    → resolve_server_path tree value allow_root ≡ Result.ok parts
    → IsConfined tree parts × (allow_root ≡ false → tree.resolves_to_root parts ≡ false)
resolve_server_path-IsConfined tree value allow_root parts h =
    let (relative, managed, inside, links, root) =
      resolve_server_path_inv tree value allow_root parts h in
    let (same, dots) = relative_path_inv value parts relative in
    (
      record {
        no_dots = subst (λ q. any is_dots q ≡ false) same dots;
        no_empty =
            subst (λ q. any (λ part. text_eq part []) q ≡ false) same (path_parts-full value);
        not_protected = managed;
        inside = inside;
        no_link = λ front rest part e. passes_link-no_link tree [] parts front rest part links e;
      },
      λ k. ground arith,
    )
