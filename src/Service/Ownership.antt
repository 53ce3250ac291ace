-- ===== src/Service/Ownership.antt =====
-- Who owns an identifier: the rows of tool_external_ids by the keys that resolve_tool looks up.
mod Lookup
use aleth_os_tool_passport.Prelude.{
  ℕ, ◌≡◌, refl, inl, inr, subst, sym, ◌∙◌, Bool, true, false, not, ◌&&◌, ◌||◌, Option, none, some,
  List, [], ◌∷◌, ◌++◌, map, arith, Text, ◌=ₜ◌, =ₜ→≡, =ₜ_refl, ok, ap, >>=-eq-ok, ok_or-ok,
  ok_injective, map_err-ok, ok_or, map_err, any, find, find-true, keep, Bool-cases, Option-cases,
}
use aleth_os_tool_passport.Domain.Tool.{Tool, ExternalIdentifier, AddIdentifierRequest}
use aleth_os_tool_passport.Errors.{database, row_not_found}
use aleth_os_tool_passport.Store.{Db, ToolRow, ToolExternalIdRow, insert}
use aleth_os_tool_passport.Store.Tools
use aleth_os_tool_passport.Store.Tools.{
  id_row, insert_external_id, push_identifier, add_external_id, distinct_texts, tools_of,
  load_full_tool, find_tools_by_identifiers,
}
use aleth_os_tool_passport.Service.{World}
use aleth_os_tool_passport.Service.Ownership.Lookup.{
  row_key, is_tool, get_tool-found, refuse_other-none, owners-sole,
}
use aleth_os_tool_passport.Service.Tools.{
  key_of_identifier, check_canonical, refuse_other, add_error, get_tool, add_identifier,
}

-- two rows with one key belong to one tool
abbrev pub IsSole : List ToolExternalIdRow → Type 0
IsSole [] = Unit
IsSole (x ∷ xs) =
    (any (λ y. row_key x =ₜ row_key y && not (y.tool_id =ₜ x.tool_id)) xs ≡ false) × IsSole xs

-- every identifier belongs to a tool of the registry, and every key to one tool
pub record IsOwned (db : Db) : Type 0 where
  pub tools : any (λ x. not (is_tool db.tools x.tool_id)) db.tool_external_ids ≡ false
  pub sole : IsSole db.tool_external_ids

same-tests :
    (f g : ToolExternalIdRow → Bool) (xs : List ToolExternalIdRow)
    → ((x : ToolExternalIdRow) → f x ≡ g x)
    → any f xs ≡ any g xs
same-tests f g [] e = refl
same-tests f g (x ∷ xs) e = let rest = same-tests f g xs e in let here = e x in ground arith

push_identifier-is_tool :
    (id tool_id : Text) (x : ExternalIdentifier) (now : ℕ) (rows : List ToolRow)
    → is_tool (push_identifier tool_id x now rows) id ≡ is_tool rows id
unfolding push_identifier
push_identifier-is_tool id tool_id x now [] = refl
push_identifier-is_tool id tool_id x now (row ∷ rows) =
    let rest = push_identifier-is_tool id tool_id x now rows in
    elim (Bool-cases (row.tool_id =ₜ tool_id)) [
      | inl same ↦ rw same (ground arith)
      | inr other ↦ rw other (ground arith)
    ]

-- what the repository adds
record Added (db db' : Db) (row : ToolExternalIdRow) : Type 0 where
  pub ids : db'.tool_external_ids ≡ row ∷ db.tool_external_ids
  pub known : is_tool db.tools row.tool_id ≡ true
  pub tools : (id : Text) → is_tool db'.tools id ≡ is_tool db.tools id

insert_external_id-Added :
    (db db' : Db) (row : ToolExternalIdRow)
    → insert_external_id db row ≡ ok db'
    → (db' ≡ record db { tool_external_ids = row ∷ db.tool_external_ids })
      × (is_tool db.tools row.tool_id ≡ true)
unfolding insert_external_id insert
insert_external_id-Added db db' row h = (ground arith, ground arith)

add_external_id-Added :
    (db db' : Db) (tool_id : Text) (x : ExternalIdentifier) (now : ℕ) {t : Tool}
    → add_external_id db tool_id x now ≡ ok (t, db')
    → Added db db' (id_row tool_id x)
unfolding add_external_id
add_external_id-Added db db' tool_id x now h =
    let (db₁, added, h₁) = >>=-eq-ok (insert_external_id db (id_row tool_id x)) _ h in
    let (row, found, h₂) =
      >>=-eq-ok (ok_or (database row_not_found) (find (λ t. t.tool_id =ₜ tool_id) db₁.tools)) _
        h₁ in
    let db₂ : Db = record db₁ { tools = push_identifier tool_id x now db₁.tools } in
    let (tool, loaded, h₃) = >>=-eq-ok (ok_or _ (Tools.get_tool db₂ tool_id)) _ h₂ in
    let out = sym (ap (λ t. t.1) (ok_injective h₃)) in
    let (same, known) = insert_external_id-Added db db₁ (id_row tool_id x) added in
    record {
      ids = ap (λ d. d.tool_external_ids) out ∙ ap (λ d. d.tool_external_ids) same;
      known = known;
      tools = λ id.
          ap (λ d. is_tool d.tools id) out
          ∙ push_identifier-is_tool id tool_id x now db₁.tools
          ∙ ap (λ d. is_tool d.tools id) same;
    }

Added-IsOwned :
    (db db' : Db) (row : ToolExternalIdRow)
    → Added db db' row
    → any (λ y. row_key row =ₜ row_key y && not (y.tool_id =ₜ row.tool_id)) db.tool_external_ids
      ≡ false
    → IsOwned db
    → IsOwned db'
Added-IsOwned db db' row a alone o =
    let known = a.known in
    let old = o.tools in
    let first : any (λ x. not (is_tool db.tools x.tool_id)) (row ∷ db.tool_external_ids) ≡ false =
      ground arith in
    record {
      tools =
          same-tests (λ x. not (is_tool db'.tools x.tool_id))
            (λ x. not (is_tool db.tools x.tool_id)) db'.tool_external_ids
            (λ x. ap not (a.tools x.tool_id))
          ∙ ap (any (λ x. not (is_tool db.tools x.tool_id))) a.ids
          ∙ first;
      sole = subst IsSole (sym a.ids) (alone, o.sole);
    }

-- If every row of tool_external_ids belongs to a tool of the registry, and rows with the same key,
-- which is the namespace, a colon and the value, belong to the same tool, and add_identifier of
-- the service succeeds, then this holds afterwards too, and exactly the row of the identifier and
-- the tool of the request was added. Rows whose namespace and value differ can have one key, so
-- this does not follow from the primary key of the table.
pub add_identifier-IsOwned :
    (now : ℕ) (tool_id : Text) (request : AddIdentifierRequest) (w w' : World) (t : Tool)
    → IsOwned w.db
    → add_identifier now tool_id request w ≡ ok (t, w')
    → IsOwned w'.db
      × (w'.db.tool_external_ids ≡ id_row tool_id request.identifier ∷ w.db.tool_external_ids)
unfolding add_identifier get_tool
add_identifier-IsOwned now tool_id request w w' t o h =
    let (existing, found, h₁) = >>=-eq-ok (get_tool tool_id w) _ h in
    let (_, canonical, h₂) = >>=-eq-ok (check_canonical _ _ request.identifier) _ h₁ in
    let key = key_of_identifier request.identifier in
    let (_, free, h₃) =
      >>=-eq-ok (refuse_other existing.tool_id (find_tools_by_identifiers w.db (key ∷ []))) _ h₂ in
    let ((t', db), made, h₄) =
      >>=-eq-ok
        (map_err (add_error existing.tool_id) (add_external_id w.db tool_id request.identifier now))
        _ h₃ in
    let row = id_row tool_id request.identifier in
    let a = add_external_id-Added w.db db tool_id request.identifier now (map_err-ok _ _ made) in
    let (t₀, there, own) = get_tool-found w.db tool_id a.known in
    let same : existing.tool_id ≡ tool_id =
      ap (λ o. elim o [ none ↦ tool_id | some y ↦ y.tool_id ])
        (sym (ok_or-ok _ (Tools.get_tool w.db tool_id) found) ∙ there)
      ∙ own in
    let none_other =
      subst
        (λ i. any (λ t. not (t.tool_id =ₜ i)) (find_tools_by_identifiers w.db (key ∷ [])) ≡ false)
        same (refuse_other-none existing.tool_id _ free) in
    let alone = owners-sole w.db key tool_id o.tools none_other in
    let alone' =
      same-tests (λ y. row_key row =ₜ row_key y && not (y.tool_id =ₜ tool_id))
        (λ y. any (λ k. k =ₜ row_key y) (key ∷ []) && not (y.tool_id =ₜ tool_id))
        w.db.tool_external_ids (λ y. ground arith)
      ∙ alone in
    subst (λ d. IsOwned d × (d.tool_external_ids ≡ row ∷ w.db.tool_external_ids))
      (ap (λ t. t.1.db) (ok_injective h₄)) (Added-IsOwned w.db db row a alone' o, a.ids)
