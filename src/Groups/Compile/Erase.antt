-- ===== src/Groups/Compile/Erase.antt =====
-- The text of a compiled rule does not depend on the literals of the rule: they are only bound.
use retune.Base.{
  List, Option, String, Text, [], ap, arith, length, length-append, none, refl, some, subst, ℕ,
  ◌++◌, ◌∷◌, ◌≡◌,
}
use retune.Groups.Ast.{
  ColumnPiece, FieldDef, Node, and, clock, column, compare_number, compare_text, field_def,
  has_software, negation, or, sql_operator,
}
use retune.Groups.Compile.{
  Arg, Compiler, Query, bind, both, clock_placeholder, clock_placeholder_of, column_query, compare,
  compare_with, comparison, compile, compile_node, framed, join, lit, negate, now, number_arg,
  software, software_head, sql, text_arg, version_test, with_version,
}

module _ {F : Type 0} where
  -- Two conditions that differ in nothing but the values that a comparison or has_software holds.
  abbrev pub SameShape : Node F → Node F → Type 0
  SameShape (and a b) (and c d) = SameShape a c × SameShape b d
  SameShape (or a b) (or c d) = SameShape a c × SameShape b d
  SameShape (negation a) (negation b) = SameShape a b
  SameShape (compare_text f o _) (compare_text f' o' _) = (f ≡ f') × (o ≡ o')
  SameShape (compare_number f o _) (compare_number f' o' _) = (f ≡ f') × (o ≡ o')
  SameShape (has_software _ o _) (has_software _ o' _) = o ≡ o'
  SameShape _ _ = ⊥

  -- As many bound values, and the clock at the same place.
  abbrev SameState : Compiler F → Compiler F → Type 0
  SameState c d = (length c.args ≡ length d.args) × (c.clock_at ≡ d.clock_at)

  -- Both fail, or both return the same text and states alike.
  abbrev SameText : Option (Query × Compiler F) → Option (Query × Compiler F) → Type 0
  SameText none none = Unit
  SameText (some (q, c)) (some (r, d)) = (q ≡ r) × SameState c d
  SameText _ _ = ⊥

  -- Equal results of a helper, with states alike.
  abbrev Alike {ℓ} : {A : Type ℓ} → A × Compiler F → A × Compiler F → Type ℓ
  Alike (a, c) (b, d) = (a ≡ b) × SameState c d

  bind-Alike : (v w : Arg F) (c d : Compiler F) → SameState c d → Alike (bind v c) (bind w d)
  unfolding bind
  bind-Alike v w c d (h, k) = (
    omega (arith, h),
    (omega (arith, h, length-append c.args (v ∷ []), length-append d.args (w ∷ [])), k),
  )

  clock_placeholder_of-Alike :
      (o : Option ℕ) (c d : Compiler F)
      → SameState c d
      → Alike (clock_placeholder_of o c) (clock_placeholder_of o d)
  unfolding clock_placeholder_of
  clock_placeholder_of-Alike (some n) c d h = (refl, h)
  clock_placeholder_of-Alike none c d h =
      let b = bind-Alike now now c d h in (b.0, (b.1.0, ap some b.0))

  clock_placeholder-Alike :
      (c d : Compiler F) → SameState c d → Alike (clock_placeholder c) (clock_placeholder d)
  unfolding clock_placeholder
  clock_placeholder-Alike c d h =
      subst (λ o. Alike (clock_placeholder_of c.clock_at c) (clock_placeholder_of o d)) h.1
        (clock_placeholder_of-Alike c.clock_at c d h)

  column_query-Alike :
      (col : List ColumnPiece) (c d : Compiler F)
      → SameState c d
      → Alike (column_query col c) (column_query col d)
  unfolding column_query
  column_query-Alike [] c d h = (refl, h)
  column_query-Alike (column s ∷ rest) c d h =
      let r = column_query-Alike rest c d h in (ap (λ q. sql s ∷ q) r.0, r.1)
  column_query-Alike (clock ∷ rest) c d h =
      let n = clock_placeholder-Alike c d h in
      let r = column_query-Alike rest (clock_placeholder c).1 (clock_placeholder d).1 n.1 in
      (cc (n.0, r.0), r.1)

  comparison-Alike :
      (def : FieldDef) (o : Text) (v w : Arg F) (c d : Compiler F)
      → SameState c d
      → Alike (comparison def o v c) (comparison def o w d)
  unfolding comparison
  comparison-Alike def o v w c d h =
      let col = column_query-Alike def.sql c d h in
      let n = bind-Alike v w (column_query def.sql c).1 (column_query def.sql d).1 col.1 in
      (cc (col.0, n.0), n.1)

  compare_with-SameText :
      (f : Option FieldDef) (o : Option Text) (v w : Arg F) (c d : Compiler F)
      → SameState c d
      → SameText (compare_with f o v c) (compare_with f o w d)
  unfolding compare_with
  compare_with-SameText none o v w c d h = tt
  compare_with-SameText (some def) none v w c d h = tt
  compare_with-SameText (some def) (some o) v w c d h = comparison-Alike def o v w c d h

  with_version-SameText :
      (m n : ℕ) (t u : Option Query) (c d : Compiler F)
      → m ≡ n
      → t ≡ u
      → SameState c d
      → SameText (with_version m t c) (with_version n u d)
  unfolding with_version
  with_version-SameText m n none u c d e k h = subst (λ u. SameText none (with_version n u d)) k tt
  with_version-SameText m n (some t) u c d e k h =
      subst (λ u. SameText (with_version m (some t) c) (with_version n u d)) k
        (ap (λ n. software_head n ++ t ++ lit ")") e, h)

  software-SameText :
      (name name' o version version' : Text) (c d : Compiler F)
      → SameState c d
      → SameText (software name o version c) (software name' o version' d)
  unfolding software
  software-SameText name name' [] version version' c d h =
      let n = bind-Alike (text_arg name) (text_arg name') c d h in
      (ap (λ n. software_head n ++ lit ")") n.0, n.1)
  software-SameText name name' (x ∷ o) version version' c d h =
      let n = bind-Alike (text_arg name) (text_arg name') c d h in
      let v =
        bind-Alike (text_arg version) (text_arg version') (bind (text_arg name) c).1
          (bind (text_arg name') d).1 n.1 in
      with_version-SameText _ _ _ _ _ _ n.0 (ap (version_test (x ∷ o) (sql_operator (x ∷ o))) v.0)
        v.1

  negate-SameText :
      (x y : Option (Query × Compiler F)) → SameText x y → SameText (negate x) (negate y)
  unfolding negate
  negate-SameText none none h = tt
  negate-SameText none (some _) h = absurd h
  negate-SameText (some _) none h = absurd h
  negate-SameText (some (q, c)) (some (r, d)) h = (cc h.0, h.1)

  join-SameText :
      (s : String) (l r : Query) (c d : Compiler F) (x y : Option (Query × Compiler F))
      → l ≡ r
      → SameText x y
      → SameText (join s (l, c) x) (join s (r, d) y)
  unfolding join
  join-SameText s l r c d none none e h = tt
  join-SameText s l r c d none (some _) e h = absurd h
  join-SameText s l r c d (some _) none e h = absurd h
  join-SameText s l r c d (some (q, c')) (some (q', d')) e h = (cc (e, h.0), h.1)

  both-SameText :
      (s : String) (f g : Compiler F → Option (Query × Compiler F))
      (x y : Option (Query × Compiler F))
      → ((c d : Compiler F) → SameState c d → SameText (f c) (g d))
      → SameText x y
      → SameText (both s f x) (both s g y)
  unfolding both
  both-SameText s f g none none k h = tt
  both-SameText s f g none (some _) k h = absurd h
  both-SameText s f g (some _) none k h = absurd h
  both-SameText s f g (some (q, c)) (some (r, d)) k h =
      join-SameText s q r c d (f c) (g d) h.0 (k c d h.1)

  compile_node-SameText :
      (a b : Node F)
      → SameShape a b
      → (c d : Compiler F) → SameState c d
      → SameText (compile_node a c) (compile_node b d)
  unfolding compile_node compare
  compile_node-SameText (and a b) (and a' b') s c d h =
      both-SameText "AND" _ _ _ _ (compile_node-SameText b b' s.1)
        (compile_node-SameText a a' s.0 c d h)
  compile_node-SameText (or a b) (or a' b') s c d h =
      both-SameText "OR" _ _ _ _ (compile_node-SameText b b' s.1)
        (compile_node-SameText a a' s.0 c d h)
  compile_node-SameText (negation a) (negation a') s c d h =
      negate-SameText _ _ (compile_node-SameText a a' s c d h)
  compile_node-SameText (compare_text f o x) (compare_text f' o' x') s c d h =
      subst
        (λ f'.
          SameText (compile_node (compare_text f o x) c) (compile_node (compare_text f' o' x') d))
        s.0
        (subst
          (λ o'.
            SameText (compile_node (compare_text f o x) c) (compile_node (compare_text f o' x') d))
          s.1
          (compare_with-SameText (field_def f) (sql_operator o) (text_arg x) (text_arg x') c d h))
  compile_node-SameText (compare_number f o x) (compare_number f' o' x') s c d h =
      subst
        (λ f'.
          SameText (compile_node (compare_number f o x) c)
            (compile_node (compare_number f' o' x') d))
        s.0
        (subst
          (λ o'.
            SameText (compile_node (compare_number f o x) c)
              (compile_node (compare_number f o' x') d))
          s.1
          (compare_with-SameText (field_def f) (sql_operator o) (number_arg x) (number_arg x') c d
            h))
  compile_node-SameText (has_software n o v) (has_software n' o' v') s c d h =
      subst
        (λ o'.
          SameText (compile_node (has_software n o v) c) (compile_node (has_software n' o' v') d))
        s (software-SameText n n' o v v' c d h)
  compile_node-SameText a b s c d h = absurd s

  abbrev pub text_of : Option (Query × List (Arg F)) → Option Query
  text_of none = none
  text_of (some (q, args)) = some q

  framed-text :
      (x y : Option (Query × Compiler F)) → SameText x y → text_of (framed x) ≡ text_of (framed y)
  unfolding framed
  framed-text none none h = refl
  framed-text none (some _) h = absurd h
  framed-text (some _) none h = absurd h
  framed-text (some (q, c)) (some (r, d)) h = cc h.0

  -- Two rules' trees that differ in their literals only compile to the same SQL text, or both fail.
  pub compile-text : (a b : Node F) → SameShape a b → text_of (compile a) ≡ text_of (compile b)
  unfolding compile
  compile-text a b s = framed-text _ _ (compile_node-SameText a b s _ _ (refl, refl))
