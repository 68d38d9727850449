-- ===== src/Client/Operations.antt =====
-- The agent operations that a daemon supports: supported_agent_operations
-- (crates/rsdb-cli/src/main.rs).
use rsdb.Base.{
  Bool, true, ◌||◌, List, [], ◌∷◌, ◌++◌, any, if◌then◌else◌, ◌≡◌, refl, arith, inl, inr, Bool-cases,
}
use rsdb.Base.Texts.{Text, contains, codes}

-- `features.iter().any(|feature| feature == expected)`
abbrev pub has_feature : List Text → Text → Bool
has_feature features expected = contains features expected

-- The `if`s of the source, in its order: the features of which one is wanted, and what is pushed.
abbrev pub rows : List (List Text × List Text)
rows =
    (codes "agent.exec.v1" ∷ codes "exec.direct" ∷ [], codes "exec" ∷ codes "exec.stream" ∷ [])
    ∷ (codes "agent.fs.stat.v1" ∷ [], codes "fs.stat" ∷ [])
    ∷ (codes "agent.fs.list.v1" ∷ [], codes "fs.list" ∷ [])
    ∷ (codes "agent.fs.read.v1" ∷ [], codes "fs.read" ∷ [])
    ∷ (codes "agent.fs.write.v1" ∷ [], codes "fs.write" ∷ [])
    ∷ (codes "agent.fs.mkdir.v1" ∷ [], codes "fs.mkdir" ∷ [])
    ∷ (codes "agent.fs.rm.v1" ∷ [], codes "fs.rm" ∷ [])
    ∷ (codes "agent.fs.move.v1" ∷ [], codes "fs.move" ∷ [])
    ∷ (codes "agent.transfer.push.v1" ∷ codes "fs.push.batch" ∷ [], codes "transfer.push" ∷ [])
    ∷ (codes "agent.transfer.pull.v1" ∷ codes "fs.pull.batch" ∷ [], codes "transfer.pull" ∷ [])
    ∷ []

unfoldable pub offered : List Text → List (List Text × List Text) → List Text
offered features [] = []
offered features ((wanted, operations) ∷ table) =
    let rest = offered features table in
    if any (λ feature. has_feature features feature) wanted then operations ++ rest else rest

unfoldable pub supported_agent_operations : List Text → Bool → List Text
unfolding offered
supported_agent_operations features compatible =
    if compatible then codes "discover" ∷ offered features rows else []

contains-append :
    (xs ys : List Text) (a : Text) → contains (xs ++ ys) a ≡ (contains xs a || contains ys a)
contains-append [] ys a = refl
contains-append (x ∷ xs) ys a = ground (arith, contains-append xs ys a)

module _ (features more : List Text) (op : Text) where
  any-more :
      (wanted : List Text)
      → any (λ f. has_feature features f) wanted ≡ true
      → any (λ f. has_feature (features ++ more) f) wanted ≡ true
  any-more [] h = cc
  any-more (w ∷ wanted) h = ground (arith, contains-append features more w, any-more wanted)

  offered-append :
      (table : List (List Text × List Text))
      → contains (offered features table) op ≡ true
      → contains (offered (features ++ more) table) op ≡ true
  unfolding offered
  offered-append [] k = k
  offered-append ((wanted, operations) ∷ table) k =
      let rest = offered features table in
      let rest' = offered (features ++ more) table in
      elim (Bool-cases (any (λ f. has_feature features f) wanted)) [
        | inl e ↦ ground (
          arith,
          any-more wanted e,
          contains-append operations rest op,
          contains-append operations rest' op,
          offered-append table,
        )
        | inr e ↦ elim (Bool-cases (any (λ f. has_feature (features ++ more) f) wanted)) [
          | inl f ↦ ground (arith, contains-append operations rest' op, offered-append table)
          | inr f ↦ ground (arith, offered-append table)
        ]
      ]

  -- An operation that a daemon supports stays supported when the daemon advertises more features.
  pub supported_agent_operations-append :
      (compatible : Bool)
      → contains (supported_agent_operations features compatible) op ≡ true
      → contains (supported_agent_operations (features ++ more) compatible) op ≡ true
  unfolding supported_agent_operations
  supported_agent_operations-append compatible h = ground (arith, offered-append rows)
