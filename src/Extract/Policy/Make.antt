-- ===== src/Extract/Policy/Make.antt =====
-- What `NewExtractPolicy` makes of a list of names.
use atomfs.Base.{
  ◌≡◌, ◌⊎◌, refl, sym, ◌∙◌, false, Option, none, some, List, [], ◌∷◌, ◌++◌, append_assoc,
  append-nil, In, inl, inr,
}
use atomfs.Text.{Bytes}
use atomfs.System.{Error, Answer, answer, failure, History, Kernel, ◌>>=◌, unknown_extractor}
use atomfs.System.Trace.{Ends, Ends-pure, Ends-fail, Ends-bind, Ends-after, Ends-mono}
use atomfs.Extract.{Extractor, Extractors}
use atomfs.Extract.Policy.{
  ExtractPolicy, by_name, with_excuse, add_found, add_names, new_extract_policy,
}

module _ (ex : Extractors) where
  -- Each name is that of an extractor, which stands in the list, in the order of the names, or has
  -- an excuse under its name.
  abbrev pub AllPlaced : List (Bytes × Error) → List Bytes → List Extractor → Type 0
  AllPlaced excuses [] es = es ≡ []
  AllPlaced excuses (n ∷ ns) es =
      (e : Extractor) × (by_name ex n ≡ some e)
      × (((rest : List Extractor) × (es ≡ e ∷ rest) × AllPlaced excuses ns rest)
          ⊎ ((x : Error) × In (n, x) excuses × AllPlaced excuses ns es))

  -- What the loop adds to a policy.
  Grown : ExtractPolicy → List Bytes → ExtractPolicy → Type 0
  Grown p ns p' =
      (es : List Extractor) × (p'.extractors ≡ p.extractors ++ es)
      × AllPlaced p'.excuses ns es
      × ((y : Bytes × Error) → In y p.excuses → In y p'.excuses)
      × (p'.extractor ≡ p.extractor)
      × (p'.initialized ≡ p.initialized)

  placed :
      (n : Bytes) (ns : List Bytes) (e : Extractor) (p p' : ExtractPolicy)
      (available : Answer (Unit {0}))
      → by_name ex n ≡ some e
      → Grown (with_excuse ex n e p available) ns p'
      → Grown p (n ∷ ns) p'
  unfolding Grown
  placed n ns e p p' (answer u) b (es, l, a, m, c, i) =
      (e ∷ es, l ∙ append_assoc p.extractors (e ∷ []) es, (e, b, inl (es, refl, a)), m, c, i)
  placed n ns e p p' (failure x) b (es, l, a, m, c, i) =
      (es, l, (e, b, inr (x, m (n, x) (inl refl), a)), (λ y h. m y (inr h)), c, i)

  add_found-Grown :
      (n : Bytes) (ns : List Bytes) (p : ExtractPolicy) (o : Option Extractor) (k : Kernel)
      (h : History)
      → by_name ex n ≡ o
      → ((p' : ExtractPolicy) (h' : History)
          → Ends (add_names ex ns p') k h' (λ q _. Grown p' ns q))
      → Ends (add_found ex n p o >>= λ p'. add_names ex ns p') k h (λ q _. Grown p (n ∷ ns) q)
  add_found-Grown n ns p none k h b ih =
      Ends-bind (λ _ _. ⊥) _ _ (Ends-fail unknown_extractor) λ p' h' x. absurd x
  add_found-Grown n ns p (some e) k h b ih =
      Ends-bind (λ p' _. (available : Answer (Unit {0})) × (p' ≡ with_excuse ex n e p available)) _
        _ (Ends-after _ _ λ available h₁. Ends-pure _ (available, refl))
        λ p' h' (available, s).
          Ends-mono _ (ih p' h') λ q h'' g. placed n ns e p q available b (rw (← s) g)

  add_names-Grown :
      (ns : List Bytes) (p : ExtractPolicy) (k : Kernel) (h : History)
      → Ends (add_names ex ns p) k h (λ q _. Grown p ns q)
  unfolding add_names Grown
  add_names-Grown [] p k h =
      Ends-pure p ([], sym (append-nil p.extractors), refl, (λ y m. m), refl, refl)
  add_names-Grown (n ∷ ns) p k h =
      add_found-Grown n ns p (by_name ex n) k h refl (λ p' h'. add_names-Grown ns p' k h')

  -- A policy that is made from names has, in their order, the extractors that are available, an
  -- excuse for each of the others, and has not chosen yet. With an unknown name none is made.
  pub new_extract_policy-AllPlaced :
      (args : List Bytes) (k : Kernel) (h : History)
      → Ends (new_extract_policy ex args) k h (λ p _.
        AllPlaced p.excuses args p.extractors × (p.extractor ≡ none) × (p.initialized ≡ false))
  unfolding new_extract_policy Grown
  new_extract_policy-AllPlaced args k h =
      Ends-mono _ (add_names-Grown args _ k h) λ p h' (es, l, a, m, c, i). (rw l a, c, i)
