-- ===== src/Store/ToolRows.antt =====
-- The writes to the tables of tools leave the other tables alone.
use aleth_os_tool_passport.Prelude.{
  ℕ, ◌≡◌, refl, subst, sym, ◌∙◌, List, [], ◌∷◌, Text, ◌=ₜ◌, ok, ap, >>=-eq-ok, ok_injective, ok_or,
  map_err, find,
}
use aleth_os_tool_passport.Domain.Tool.{ExternalIdentifier, Tool}
use aleth_os_tool_passport.Errors.{database, row_not_found}
use aleth_os_tool_passport.Store.{Db, ToolRow, ToolExternalIdRow, ToolAliasRow, insert}
use aleth_os_tool_passport.Store.Tools.{
  insert_tool, insert_external_id, insert_alias, id_row, insert_external_ids, insert_aliases,
  row_of, create_tool, push_identifier, get_tool, add_external_id,
}

-- writes to the tables of tools only
pub record ToolsOnly (db db' : Db) : Type 0 where
  pub events : db'.run_events ≡ db.run_events
  pub boards : db'.evidence_boards ≡ db.evidence_boards
  pub manifests : db'.evidence_manifests ≡ db.evidence_manifests

ToolsOnly-refl : (db : Db) → ToolsOnly db db
ToolsOnly-refl db = record { events = refl; boards = refl; manifests = refl }

ToolsOnly-trans : (a b c : Db) → ToolsOnly a b → ToolsOnly b c → ToolsOnly a c
ToolsOnly-trans a b c s t = record {
  events = t.events ∙ s.events;
  boards = t.boards ∙ s.boards;
  manifests = t.manifests ∙ s.manifests;
}

insert_tool-ToolsOnly :
    (db db' : Db) (row : ToolRow) → insert_tool db row ≡ ok db' → ToolsOnly db db'
unfolding insert_tool
insert_tool-ToolsOnly db db' row h =
    let (rows, _, h₁) = >>=-eq-ok (map_err _ (insert _ _ _ row db.tools)) _ h in
    let out = sym (ok_injective h₁) in
    record {
      events = ap (λ d. d.run_events) out;
      boards = ap (λ d. d.evidence_boards) out;
      manifests = ap (λ d. d.evidence_manifests) out;
    }

insert_alias-ToolsOnly :
    (db db' : Db) (row : ToolAliasRow) → insert_alias db row ≡ ok db' → ToolsOnly db db'
unfolding insert_alias
insert_alias-ToolsOnly db db' row h =
    let (rows, _, h₁) = >>=-eq-ok (map_err _ (insert _ _ _ row db.tool_aliases)) _ h in
    let out = sym (ok_injective h₁) in
    record {
      events = ap (λ d. d.run_events) out;
      boards = ap (λ d. d.evidence_boards) out;
      manifests = ap (λ d. d.evidence_manifests) out;
    }

insert_external_id-ToolsOnly :
    (db db' : Db) (row : ToolExternalIdRow) → insert_external_id db row ≡ ok db' → ToolsOnly db db'
unfolding insert_external_id
insert_external_id-ToolsOnly db db' row h =
    let (rows, _, h₁) = >>=-eq-ok (map_err _ (insert _ _ _ row db.tool_external_ids)) _ h in
    let out = sym (ok_injective h₁) in
    record {
      events = ap (λ d. d.run_events) out;
      boards = ap (λ d. d.evidence_boards) out;
      manifests = ap (λ d. d.evidence_manifests) out;
    }

insert_external_ids-ToolsOnly :
    (db db' : Db) (tool_id : Text) (xs : List ExternalIdentifier)
    → insert_external_ids db tool_id xs ≡ ok db'
    → ToolsOnly db db'
unfolding insert_external_ids
insert_external_ids-ToolsOnly db db' tool_id [] h =
    subst (ToolsOnly db) (ok_injective h) (ToolsOnly-refl db)
insert_external_ids-ToolsOnly db db' tool_id (x ∷ xs) h =
    let (mid, added, rest) = >>=-eq-ok (insert_external_id db (id_row tool_id x)) _ h in
    ToolsOnly-trans db mid db' (insert_external_id-ToolsOnly db mid (id_row tool_id x) added)
      (insert_external_ids-ToolsOnly mid db' tool_id xs rest)

insert_aliases-ToolsOnly :
    (db db' : Db) (tool_id : Text) (aliases : List Text)
    → insert_aliases db tool_id aliases ≡ ok db'
    → ToolsOnly db db'
unfolding insert_aliases
insert_aliases-ToolsOnly db db' tool_id [] h =
    subst (ToolsOnly db) (ok_injective h) (ToolsOnly-refl db)
insert_aliases-ToolsOnly db db' tool_id (alias ∷ aliases) h =
    let row : ToolAliasRow = record { tool_id = tool_id; alias = alias } in
    let (mid, added, rest) = >>=-eq-ok (insert_alias db row) _ h in
    ToolsOnly-trans db mid db' (insert_alias-ToolsOnly db mid row added)
      (insert_aliases-ToolsOnly mid db' tool_id aliases rest)

pub create_tool-ToolsOnly :
    (db db' : Db) (tool : Tool) {t : Tool} → create_tool db tool ≡ ok (t, db') → ToolsOnly db db'
unfolding create_tool
create_tool-ToolsOnly db db' tool h =
    let (db₁, first, h₁) = >>=-eq-ok (insert_tool db (row_of tool)) _ h in
    let (db₂, second, h₂) =
      >>=-eq-ok (insert_external_ids db₁ tool.tool_id tool.external_identifiers) _ h₁ in
    let (db₃, third, h₃) = >>=-eq-ok (insert_aliases db₂ tool.tool_id tool.aliases) _ h₂ in
    subst (ToolsOnly db) (ap (λ t. t.1) (ok_injective h₃)) (
      ToolsOnly-trans db db₁ db₃ (insert_tool-ToolsOnly db db₁ (row_of tool) first) (
        ToolsOnly-trans db₁ db₂ db₃
          (insert_external_ids-ToolsOnly db₁ db₂ tool.tool_id tool.external_identifiers second)
          (insert_aliases-ToolsOnly db₂ db₃ tool.tool_id tool.aliases third)))

pub add_external_id-ToolsOnly :
    (db db' : Db) (tool_id : Text) (x : ExternalIdentifier) (now : ℕ) {t : Tool}
    → add_external_id db tool_id x now ≡ ok (t, db')
    → ToolsOnly db db'
unfolding add_external_id
add_external_id-ToolsOnly db db' tool_id x now h =
    let (db₁, added, h₁) = >>=-eq-ok (insert_external_id db (id_row tool_id x)) _ h in
    let (row, found, h₂) =
      >>=-eq-ok (ok_or (database row_not_found) (find (λ t. t.tool_id =ₜ tool_id) db₁.tools)) _
        h₁ in
    let db₂ : Db = record db₁ { tools = push_identifier tool_id x now db₁.tools } in
    let (tool, loaded, h₃) = >>=-eq-ok (ok_or _ (get_tool db₂ tool_id)) _ h₂ in
    let out = sym (ap (λ t. t.1) (ok_injective h₃)) in
    let t = insert_external_id-ToolsOnly db db₁ (id_row tool_id x) added in
    record {
      events = ap (λ d. d.run_events) out ∙ t.events;
      boards = ap (λ d. d.evidence_boards) out ∙ t.boards;
      manifests = ap (λ d. d.evidence_manifests) out ∙ t.manifests;
    }
