-- ===== src/Remote/RootId/Quoted.antt =====
-- internal/rcloneclient/rootid.go: a name in a query of Drive is read back as it is.
use home_drive.Base.{
  ℕ, ◌≡◌, refl, ap, ◌∙◌, arith, Bool, true, false, ◌==◌, Option, none, some, [], ◌∷◌, ◌++◌, drop,
}
use home_drive.Base.Text.{Bytes}
use home_drive.Remote.RootId.{
  backslash, quote, escape_byte, escape_drive_query_value, folder_condition, child_query,
}

abbrev after : ℕ → Option (Bytes × Bytes) → Option (Bytes × Bytes)
after c none = none
after c (some (s, rest)) = some (c ∷ s, rest)

-- A literal as the documentation of the Drive API has it, up to its closing quote, with what comes
-- behind that: a backslash takes the next byte as it is. The flag says that there was one.
unfoldable pub read_literal : Bool → Bytes → Option (Bytes × Bytes)
read_literal escaped [] = none
read_literal true (c ∷ s) = after c (read_literal false s)
read_literal false (c ∷ s) = elim (c == quote) [
  | true ↦ some ([], s)
  | false ↦ elim (c == backslash) [
    | true ↦ read_literal true s
    | false ↦ after c (read_literal false s)
  ]
]

read-escape :
    (c : ℕ) (s t : Bytes)
    → read_literal false (escape_drive_query_value (c ∷ s) ++ t)
      ≡ after c (read_literal false (escape_drive_query_value s ++ t))
unfolding read_literal escape_drive_query_value escape_byte
read-escape c s t = ground arith

read-escaped :
    (s rest : Bytes)
    → read_literal false (escape_drive_query_value s ++ (quote ∷ rest)) ≡ some (s, rest)
unfolding read_literal escape_drive_query_value escape_byte
read-escaped [] rest = refl
read-escaped (c ∷ s) rest = read-escape c s (quote ∷ rest) ∙ ap (after c) (read-escaped s rest)

-- Whatever quotes and backslashes a name has, Drive reads the literal of the query that looks for
-- its folder back as the name, and goes on with the condition on the parent that the code wrote.
pub child_query-Quoted :
    (name parent : Bytes)
    → read_literal false (drop 8 (child_query name parent)) ≡ some (name, folder_condition parent)
unfolding child_query
child_query-Quoted name parent = read-escaped name (folder_condition parent)
