-- ===== src/Exclude/Walk.antt =====
-- What every walk that calls `AddExclude` and `AddInclude` keeps true.
use atomfs.Base.{
  ℕ, zero, suc, ◌≡◌, ◌⊎◌, refl, subst, sym, ap, ◌∙◌, Bool, true, false, not, ◌&&◌, if◌then◌else◌,
  Bool-cases, Option, none, some, none-some, List, [], ◌∷◌, ◌++◌, append_assoc, arith, All, In, inl,
  inr,
}
use atomfs.Text.{Bytes, bytes, text_eq, text_eq_iff}
use atomfs.FilePath.{dir}
use atomfs.FilePath.Laws.{IsElement, slashed, slashed-append, path_of}
use atomfs.Exclude.{
  ExcludePaths, new_exclude_paths, member, delete, prefixes_one, add_exclude, remove_parents,
  first_dir, with_include, add_include,
}
use atomfs.Exclude.Parents.{unroll, is_parent, member-delete, dir-unroll, not_root, root}
use atomfs.Exclude.Invariant.{add_exclude-adds, prefixes_one-In}

-- The states of the excluded paths that a walk goes through.
pub data Walk : ExcludePaths → Type 0 where
  start : Walk new_exclude_paths
  exclude : {eps : ExcludePaths} → Walk eps → (p : Bytes) → Walk (add_exclude p eps)
  include :
      {eps eps' : ExcludePaths}
      → Walk eps
      → (fuel : ℕ) (p : Bytes) (is_dir : Bool) → add_include fuel p is_dir eps ≡ some eps'
      → Walk eps'

-- A directory above a path that is spelled by elements, the root left out.
pub record IsAbove (q p : Bytes) : Type 0 where
  pub name : Bytes
  pub parents : List Bytes
  pub element : IsElement name
  pub elements : All IsElement parents
  pub spelled : p ≡ path_of (unroll (name ∷ parents))
  pub above : is_parent q parents ≡ true

path_of-slashed :
    (cs : List Bytes) (c : Bytes) → path_of (cs ++ (c ∷ [])) ≡ slashed (cs ++ (c ∷ []))
path_of-slashed [] c = refl
path_of-slashed (d ∷ cs) c = refl

-- A directory above a path is its front, as bytes.
above-front :
    (rs : List Bytes) (q s : Bytes)
    → is_parent q rs ≡ true
    → (t : Bytes) × (slashed (unroll rs) ++ s ≡ q ++ t)
unfolding is_parent
above-front [] q s e = absurd (cc e)
above-front (c ∷ rs) q s e = elim (Bool-cases (text_eq (path_of (unroll (c ∷ rs))) q)) [
  | inl f ↦ (
    s,
    ap (λ p. p ++ s)
        (sym (path_of-slashed (unroll rs) c) ∙ (text_eq_iff (path_of (unroll (c ∷ rs))) q).0 f),
  )
  | inr f ↦
      let (t, g) = above-front rs q (slashed (c ∷ []) ++ s) (ground arith) in
      (
        t,
        rw
            (
              slashed-append (unroll rs) (c ∷ []),
              append_assoc (slashed (unroll rs)) (slashed (c ∷ [])) s,
            )
            g,
      )
]

IsAbove-front : {q p : Bytes} → IsAbove q p → (t : Bytes) × (p ≡ q ++ t)
IsAbove-front {q} a =
    let (t, e) = above-front a.parents q (slashed (a.name ∷ [])) a.above in
    (
      t,
      a.spelled
          ∙ (path_of-slashed (unroll a.parents) a.name
              ∙ (slashed-append (unroll a.parents) (a.name ∷ []) ∙ e)),
    )

some_eq : {xs ys : List Bytes} → some xs ≡ some ys → xs ≡ ys
some_eq e = cc e

module _ (fuel : ℕ) (p : Bytes) (ex ex' : List Bytes) where
  -- The loop, when it stops and when it goes on.
  stops : text_eq p (bytes "/") ≡ true → remove_parents (suc fuel) p ex ≡ some ex' → ex ≡ ex'
  unfolding remove_parents
  stops r e = some_eq (
      subst (λ b. (if b then some ex else remove_parents fuel (dir p) (delete p ex)) ≡ some ex') r
        e)

  goes_on :
      text_eq p (bytes "/") ≡ false
      → remove_parents (suc fuel) p ex ≡ some ex'
      → remove_parents fuel (dir p) (delete p ex) ≡ some ex'
  unfolding remove_parents
  goes_on r e =
      subst (λ b. (if b then some ex else remove_parents fuel (dir p) (delete p ex)) ≡ some ex') r e

-- Whatever the fuel, the loop that ends has taken out the directory that it starts from and its
-- parents.
removed_parents :
    (fuel : ℕ) (rs ex ex' : List Bytes)
    → All IsElement rs
    → remove_parents fuel (path_of (unroll rs)) ex ≡ some ex'
    → (q : Bytes) → member q ex' ≡ (not (is_parent q rs) && member q ex)
unfolding is_parent remove_parents
removed_parents zero rs ex ex' h e q = absurd (none-some e)
removed_parents (suc fuel) [] ex ex' h e q =
    ap (member q) (sym (stops fuel (bytes "/") ex ex' root e))
removed_parents (suc fuel) (c ∷ rs) ex ex' (h, hs) e q =
    let path = path_of (unroll (c ∷ rs)) in
    let rest =
      subst (λ d. remove_parents fuel d (delete path ex) ≡ some ex') (dir-unroll c rs h hs)
        (goes_on fuel path ex ex' (not_root c rs h hs) e) in
    rw (removed_parents fuel rs (delete path ex) ex' hs rest q, member-delete) (ground arith)

-- It adds nothing, wherever it starts.
removed_only :
    (fuel : ℕ) (p : Bytes) (ex ex' : List Bytes)
    → remove_parents fuel p ex ≡ some ex'
    → (q : Bytes) → member q ex ≡ false
    → member q ex' ≡ false
unfolding remove_parents
removed_only zero p ex ex' e q m = absurd (none-some e)
removed_only (suc fuel) p ex ex' e q m = elim (Bool-cases (text_eq p (bytes "/"))) [
  | inl r ↦ subst (λ x. member q x ≡ false) (stops fuel p ex ex' r e) m
  | inr r ↦
      removed_only fuel (dir p) (delete p ex) ex' (goes_on fuel p ex ex' r e) q
        (rw (member-delete, m) (ground arith))
]

included :
    (eps eps' : ExcludePaths) (p : Bytes) (r : Option (List Bytes))
    → with_include eps p r ≡ some eps'
    → (r ≡ some eps'.exclude) × (eps'.include ≡ eps.include ++ (p ∷ []))
included eps eps' p none e = absurd (cc e)
included eps eps' p (some ex) e = (cc e, cc e)

In-snoc : (p y : Bytes) (xs : List Bytes) → In p (xs ++ (y ∷ [])) → In p xs ⊎ (p ≡ y)
In-snoc p y [] (inl e) = inr e
In-snoc p y [] (inr m) = absurd (m tt)
In-snoc p y (x ∷ xs) (inl e) = inl (inl e)
In-snoc p y (x ∷ xs) (inr m) = elim (In-snoc p y xs m) [ inl i ↦ inl (inr i) | inr e ↦ inr e ]

module _ {q p : Bytes} (a : IsAbove q p) where
  above_of_dir :
      (fuel : ℕ) (is_dir : Bool) (ex ex' : List Bytes)
      → remove_parents fuel (first_dir p is_dir) ex ≡ some ex'
      → member q ex' ≡ false
  unfolding is_parent
  above_of_dir fuel true ex ex' e =
      rw
        (removed_parents fuel (a.name ∷ a.parents) ex ex' (a.element, a.elements)
          (subst (λ d. remove_parents fuel d ex ≡ some ex') a.spelled e) q)
        (rw a.above (ground arith))
  above_of_dir fuel false ex ex' e =
      rw
        (removed_parents fuel a.parents ex ex' a.elements
          (subst (λ d. remove_parents fuel d ex ≡ some ex')
            (ap dir a.spelled ∙ dir-unroll a.name a.parents a.element a.elements) e)
          q)
        (rw a.above refl)

  -- `AddExclude` refuses it.
  refused :
      (p' : Bytes) (incs : List Bytes)
      → In p incs
      → (text_eq p' q && not (prefixes_one p' incs)) ≡ false
  refused p' incs m = elim (Bool-cases (text_eq p' q)) [
    | inl f ↦
        let (t, e) = IsAbove-front a in
        let found = prefixes_one-In q t incs (subst (λ x. In x incs) e m) in
        rw ((text_eq_iff p' q).0 f, found) (ground arith)
    | inr f ↦ rw f refl
  ]

-- However a walk mixes `AddExclude` and `AddInclude`, no directory above an included path that is
-- spelled by its elements is excluded, the root left out.
pub Walk-clear :
    {eps : ExcludePaths}
    → Walk eps
    → (p q : Bytes) → In p eps.include
    → IsAbove q p
    → member q eps.exclude ≡ false
unfolding add_include
Walk-clear start p q m a = absurd (m tt)
Walk-clear (exclude {eps} w p') p q m a =
    let (adds, same) = add_exclude-adds p' q eps in
    let listed = subst (λ incs. In p incs) same m in
    rw (adds, Walk-clear w p q listed a) (refused a p' eps.include listed)
Walk-clear (include {eps} {eps'} w fuel p' is_dir e) p q m a =
    let (ends, appended) =
      included eps eps' p' (remove_parents fuel (first_dir p' is_dir) eps.exclude) e in
    elim (In-snoc p p' eps.include (subst (λ incs. In p incs) appended m)) [
      | inl old ↦
          removed_only fuel (first_dir p' is_dir) eps.exclude eps'.exclude ends q
            (Walk-clear w p q old a)
      | inr new ↦ above_of_dir a fuel is_dir eps.exclude eps'.exclude (
          subst (λ x. remove_parents fuel (first_dir x is_dir) eps.exclude ≡ some eps'.exclude)
            (sym new) ends)
    ]
