-- ===== src/Store/Tools.antt =====
-- The tool registry in backend/src/repository/mod.rs.
use aleth_os_tool_passport.Prelude.{
  ℕ, true, not, ◌&&◌, Option, none, some, List, [], ◌∷◌, ◌++◌, map, if◌then◌else◌, Text, codes,
  ◌=ₜ◌, is_empty, Result, ok, ◌>>=◌, ok_or, map_err, format, any, sort_on, to_ascii_lowercase, find,
  keep, reversed,
}
use aleth_os_tool_passport.Platform.{Platform}
use aleth_os_tool_passport.Domain.Tool.{ExternalIdentifier, Tool}
use aleth_os_tool_passport.Errors.{RepositoryError, database, row_not_found, invalid_stored_data}
use aleth_os_tool_passport.Store.{Db, ToolRow, ToolExternalIdRow, ToolAliasRow, insert, has_text}
use aleth_os_tool_passport.Store.Freezes.{insert_error}

unfoldable pub insert_tool : Db → ToolRow → Result RepositoryError Db
insert_tool db row = do
  rows ← map_err insert_error (
      insert
        (has_text row.tool_id
          && has_text row.name
          && has_text row.canonical_url
          && not (is_empty row.external_identifiers))
        (λ t. t.tool_id =ₜ row.tool_id) true row db.tools)
  ok (record db { tools = rows })

unfoldable pub insert_external_id : Db → ToolExternalIdRow → Result RepositoryError Db
insert_external_id db row = do
  rows ← map_err insert_error (
      insert (has_text row.namespace && has_text row.value && has_text row.canonical_url)
        (λ x. x.namespace =ₜ row.namespace && x.value =ₜ row.value)
        (any (λ t. t.tool_id =ₜ row.tool_id) db.tools) row db.tool_external_ids)
  ok (record db { tool_external_ids = rows })

-- its failure is a plain database error
unfoldable pub insert_alias : Db → ToolAliasRow → Result RepositoryError Db
insert_alias db row = do
  rows ← map_err database (
      insert (has_text row.alias) (λ x. x.tool_id =ₜ row.tool_id && x.alias =ₜ row.alias)
        (any (λ t. t.tool_id =ₜ row.tool_id) db.tools) row db.tool_aliases)
  ok (record db { tool_aliases = rows })

-- the row of an identifier of a tool
abbrev pub id_row : Text → ExternalIdentifier → ToolExternalIdRow
id_row tool_id x = record {
  namespace = x.namespace;
  value = x.value;
  tool_id = tool_id;
  canonical_url = x.canonical_url;
}

unfoldable pub insert_external_ids : Db → Text → List ExternalIdentifier → Result RepositoryError Db
insert_external_ids db tool_id [] = ok db
insert_external_ids db tool_id (x ∷ xs) = do
  db₁ ← insert_external_id db (id_row tool_id x)
  insert_external_ids db₁ tool_id xs

unfoldable pub insert_aliases : Db → Text → List Text → Result RepositoryError Db
insert_aliases db tool_id [] = ok db
insert_aliases db tool_id (alias ∷ aliases) = do
  db₁ ← insert_alias db (record { tool_id = tool_id; alias = alias })
  insert_aliases db₁ tool_id aliases

abbrev pub row_of : Tool → ToolRow
row_of tool = record {
  tool_id = tool.tool_id;
  name = tool.name;
  tool_type = tool.tool_type;
  canonical_url = tool.canonical_url;
  external_identifiers = tool.external_identifiers;
  created_at = tool.created_at;
  updated_at = tool.updated_at;
}

unfoldable pub create_tool : Db → Tool → Result RepositoryError (Tool × Db)
create_tool db tool = do
  db₁ ← insert_tool db (row_of tool)
  db₂ ← insert_external_ids db₁ tool.tool_id tool.external_identifiers
  db₃ ← insert_aliases db₂ tool.tool_id tool.aliases
  ok (tool, db₃)

-- The identifiers and the aliases of a tool stand in their own tables.
unfoldable pub load_full_tool : Db → ToolRow → Tool
load_full_tool db row = record {
  tool_schema_version = codes "0.1.0";
  tool_id = row.tool_id;
  name = row.name;
  tool_type = row.tool_type;
  canonical_url = row.canonical_url;
  external_identifiers =
      map
        (λ x. record { namespace = x.namespace; value = x.value; canonical_url = x.canonical_url })
        (sort_on (λ x. x.namespace)
          (sort_on (λ x. x.value) (keep (λ x. x.tool_id =ₜ row.tool_id) db.tool_external_ids)));
  aliases =
      sort_on (λ s. s) (map (λ x. x.alias) (keep (λ x. x.tool_id =ₜ row.tool_id) db.tool_aliases));
  created_at = row.created_at;
  updated_at = row.updated_at;
}

unfoldable pub get_tool : Db → Text → Option Tool
get_tool db tool_id = elim (find (λ t. t.tool_id =ₜ tool_id) db.tools) [
  | none ↦ none
  | some row ↦ some (load_full_tool db row)
]

-- `ORDER BY created_at DESC, tool_id DESC`
unfoldable pub list_tools : Platform → Db → List Tool
list_tools p db =
    map (load_full_tool db) (
      reversed (sort_on (λ t. p.format_timestamp t.created_at) (sort_on (λ t. t.tool_id) db.tools)))

-- `SELECT DISTINCT`, whose order is not fixed: here the order of the rows
unfoldable pub distinct_texts : List Text → List Text
distinct_texts [] = []
distinct_texts (s ∷ ss) = s ∷ keep (λ t. not (t =ₜ s)) (distinct_texts ss)

-- the tools that are found of a list of IDs
unfoldable pub tools_of : Db → List Text → List Tool
tools_of db [] = []
tools_of db (id ∷ ids) =
    let rest = tools_of db ids in elim (get_tool db id) [ none ↦ rest | some tool ↦ tool ∷ rest ]

unfoldable pub find_tools_by_identifiers : Db → List Text → List Tool
find_tools_by_identifiers db keys = tools_of db (
    distinct_texts (
      map (λ x. x.tool_id)
        (keep (λ x. any (λ k. k =ₜ (x.namespace ++ (58 ∷ x.value))) keys) db.tool_external_ids)))

-- `LOWER` of SQLite folds ASCII letters only.
unfoldable pub find_tools_by_name : Db → Text → List Tool
find_tools_by_name db name =
    let name_lower = to_ascii_lowercase name in
    tools_of db (
      distinct_texts (
        map (λ t. t.tool_id) (keep (λ t. to_ascii_lowercase t.name =ₜ name_lower) db.tools)
        ++ map (λ x. x.tool_id)
            (keep (λ x. to_ascii_lowercase x.alias =ₜ name_lower) db.tool_aliases)))

-- the UPDATE of a tool
unfoldable pub push_identifier : Text → ExternalIdentifier → ℕ → List ToolRow → List ToolRow
push_identifier tool_id x now [] = []
push_identifier tool_id x now (row ∷ rows) =
    let rest = push_identifier tool_id x now rows in
    if row.tool_id =ₜ tool_id
    then record row {
      external_identifiers = row.external_identifiers ++ (x ∷ []);
      updated_at = now;
    }
      ∷ rest
    else row ∷ rest

unfoldable pub add_external_id :
    Db → Text → ExternalIdentifier → ℕ → Result RepositoryError (Tool × Db)
add_external_id db tool_id identifier now = do
  db₁ ← insert_external_id db (id_row tool_id identifier)
  row ← ok_or (database row_not_found) (find (λ t. t.tool_id =ₜ tool_id) db₁.tools)
  let db₂ : Db = record db₁ { tools = push_identifier tool_id identifier now db₁.tools }
  tool ←
      ok_or (invalid_stored_data (format "tool {} disappeared after update" (tool_id ∷ [])))
        (get_tool db₂ tool_id)
  ok (tool, db₂)
