-- ===== src/Groups/Compile/Total.antt =====
-- Which comparisons and trees the compiler accepts.
use retune.Base.{Option, String, Text, [], inl, inr, none, some, ◌∷◌, ◌≡◌, ◌⊎◌}
use retune.Groups.Ast.{FieldDef, Node, and, field_def, has_software, negation, or, sql_operator}
use retune.Groups.Compile.{
  Arg, Compiler, Query, both, compare, compare_with, compile_node, join, negate, software,
  version_test, with_version, compile, framed,
}

abbrev pub IsSome {ℓ} : {A : Type ℓ} → Option A → Type 0
IsSome none = ⊥
IsSome (some _) = Unit

abbrev pub KnownOperator : Text → Type 0
KnownOperator o = (s : Text) × (sql_operator o ≡ some s)

module _ {F : Type 0} where
  -- The compiler accepts the node in every state.
  abbrev pub Compiles : Node F → Type 0
  Compiles n = (c : Compiler F) → IsSome (compile_node n c)

  pub compare-IsSome :
      (field o : Text) (def : FieldDef)
      → field_def field ≡ some def
      → KnownOperator o
      → (v : Arg F) (c : Compiler F) → IsSome (compare field o v c)
  unfolding compare compare_with
  compare-IsSome field o def h (s, k) v c = rw (h, k) tt

  pub software-Compiles :
      (name o version : Text) → (o ≡ []) ⊎ KnownOperator o → Compiles (has_software name o version)
  unfolding compile_node software with_version version_test
  software-Compiles name [] version h c = tt
  software-Compiles name (x ∷ o) version (inl h) c = absurd (cc h)
  software-Compiles name (x ∷ o) version (inr (s, k)) c = rw k tt

  both-IsSome :
      (s : String) (f : Compiler F → Option (Query × Compiler F)) (x : Option (Query × Compiler F))
      → ((c : Compiler F) → IsSome (f c))
      → IsSome x
      → IsSome (both s f x)
  unfolding both
  both-IsSome s f none h k = absurd k
  both-IsSome s f (some (q, c)) h k = joined (f c) (h c)
    where
      joined : (y : Option (Query × Compiler F)) → IsSome y → IsSome (join s (q, c) y)
      joined none k = absurd k
      joined (some r) k = tt

  negate-IsSome : (x : Option (Query × Compiler F)) → IsSome x → IsSome (negate x)
  unfolding negate
  negate-IsSome none h = absurd h
  negate-IsSome (some (q, c)) h = tt

  pub and-Compiles : (a b : Node F) → Compiles a → Compiles b → Compiles (and a b)
  unfolding compile_node
  and-Compiles a b h k c = both-IsSome "AND" (compile_node b) (compile_node a c) k (h c)

  pub or-Compiles : (a b : Node F) → Compiles a → Compiles b → Compiles (or a b)
  unfolding compile_node
  or-Compiles a b h k c = both-IsSome "OR" (compile_node b) (compile_node a c) k (h c)

  pub negation-Compiles : (a : Node F) → Compiles a → Compiles (negation a)
  unfolding compile_node
  negation-Compiles a h c = negate-IsSome (compile_node a c) (h c)

  framed-IsSome : (x : Option (Query × Compiler F)) → IsSome x → IsSome (framed x)
  unfolding framed
  framed-IsSome none h = absurd h
  framed-IsSome (some (q, c)) h = tt

  pub compile-IsSome : (n : Node F) → Compiles n → IsSome (compile n)
  unfolding compile
  compile-IsSome n h = framed-IsSome _ (h _)
