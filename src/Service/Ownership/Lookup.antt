-- ===== src/Service/Ownership/Lookup.antt =====
-- What the query for the owners of a key finds, in terms of the rows of tool_external_ids.
use aleth_os_tool_passport.Prelude.{
  ◌≡◌, refl, inl, inr, sym, ◌∙◌, Bool, true, false, not, ◌&&◌, ◌||◌, none, some, List, [], ◌∷◌,
  ◌++◌, map, arith, Text, ◌=ₜ◌, =ₜ→≡, ok, ap, any, find, find-true, keep, Bool-cases, Option-cases,
}
use aleth_os_tool_passport.Domain.Tool.{Tool}
use aleth_os_tool_passport.Store.{Db, ToolRow, ToolExternalIdRow}
use aleth_os_tool_passport.Store.Tools
use aleth_os_tool_passport.Store.Tools.{
  id_row, insert_external_id, push_identifier, add_external_id, distinct_texts, tools_of,
  load_full_tool, find_tools_by_identifiers,
}
use aleth_os_tool_passport.Service.Tools.{refuse_other}

abbrev pub row_key : ToolExternalIdRow → Text
row_key x = x.namespace ++ (58 ∷ x.value)

abbrev pub is_tool : List ToolRow → Text → Bool
is_tool tools id = any (λ t. t.tool_id =ₜ id) tools

any-keep :
    (f : Text → Bool) (s : Text) (ss : List Text)
    → (f s || any f (keep (λ t. not (t =ₜ s)) ss)) ≡ (f s || any f ss)
any-keep f s [] = refl
any-keep f s (t ∷ ss) =
    let rest = any-keep f s ss in
    elim (Bool-cases (t =ₜ s)) [
      | inl same ↦ let e : f t ≡ f s = ap f (=ₜ→≡ t s same) in ground arith
      | inr other ↦ ground arith
    ]

any-distinct_texts : (f : Text → Bool) (ss : List Text) → any f (distinct_texts ss) ≡ any f ss
unfolding distinct_texts
any-distinct_texts f [] = refl
any-distinct_texts f (s ∷ ss) =
    let rest = any-distinct_texts f ss in
    let step = any-keep f s (distinct_texts ss) in ground arith

any-map-keep :
    (f : Text → Bool) (sel : ToolExternalIdRow → Bool) (xs : List ToolExternalIdRow)
    → any f (map (λ x. x.tool_id) (keep sel xs)) ≡ any (λ x. sel x && f x.tool_id) xs
any-map-keep f sel [] = refl
any-map-keep f sel (x ∷ xs) =
    let rest = any-map-keep f sel xs in
    elim (Bool-cases (sel x)) [
      | inl chosen ↦ rw chosen (ground arith)
      | inr passed ↦ rw passed rest
    ]

any-narrower :
    (f sel : ToolExternalIdRow → Bool) (xs : List ToolExternalIdRow)
    → any f xs ≡ false
    → any (λ x. sel x && f x) xs ≡ false
any-narrower f sel [] h = refl
any-narrower f sel (x ∷ xs) h = let rest = any-narrower f sel xs in ground arith

find-found :
    (id : Text) (tools : List ToolRow)
    → is_tool tools id ≡ true
    → (row : ToolRow) × (find (λ t. t.tool_id =ₜ id) tools ≡ some row)
find-found id [] h = ground arith
find-found id (t ∷ tools) h = elim (Bool-cases (t.tool_id =ₜ id)) [
  | inl same ↦ (t, rw same refl)
  | inr other ↦ let (row, found) = find-found id tools (ground arith) in (row, rw other found)
]

pub get_tool-found :
    (db : Db) (id : Text)
    → is_tool db.tools id ≡ true
    → (t : Tool) × (Tools.get_tool db id ≡ some t) × (t.tool_id ≡ id)
unfolding Tools.get_tool load_full_tool
get_tool-found db id h =
    let (row, found) = find-found id db.tools h in
    (
      load_full_tool db row,
      rw (Tools.get_tool, found) refl,
      =ₜ→≡ row.tool_id id (find-true (λ t. t.tool_id =ₜ id) db.tools {x = row} found),
    )

-- the tools of a list of IDs of tools are those with these IDs
any-tools_of :
    (db : Db) (f : Text → Bool) (ids : List Text)
    → any (λ i. not (is_tool db.tools i)) ids ≡ false
    → any (λ t. f t.tool_id) (tools_of db ids) ≡ any f ids
unfolding tools_of
any-tools_of db f [] h = refl
any-tools_of db f (id ∷ ids) h =
    let rest = any-tools_of db f ids (ground arith) in
    let (t, found, own) = get_tool-found db id (ground arith) in
    let e : f t.tool_id ≡ f id = ap f own in rw (tools_of, found) (ground arith)

find-none : (f : Tool → Bool) (ts : List Tool) → find f ts ≡ none → any f ts ≡ false
find-none f [] h = refl
find-none f (t ∷ ts) h = elim (Bool-cases (f t)) [
  | inl yes_it ↦ ground arith
  | inr no_it ↦ ground (arith, find-none f ts)
]

pub refuse_other-none :
    (tool_id : Text) (owners : List Tool)
    → refuse_other tool_id owners ≡ ok tt
    → any (λ t. not (t.tool_id =ₜ tool_id)) owners ≡ false
unfolding refuse_other
refuse_other-none tool_id owners h =
    elim (Option-cases (find (λ t. not (t.tool_id =ₜ tool_id)) owners)) [
      | inl nothing ↦ find-none (λ t. not (t.tool_id =ₜ tool_id)) owners nothing
      | inr (t, found) ↦ ground arith
    ]

-- if no other tool is found by a key, no row of another tool has it
pub owners-sole :
    (db : Db) (key tool_id : Text)
    → any (λ x. not (is_tool db.tools x.tool_id)) db.tool_external_ids ≡ false
    → any (λ t. not (t.tool_id =ₜ tool_id)) (find_tools_by_identifiers db (key ∷ [])) ≡ false
    → any
        (λ y. any (λ k. k =ₜ row_key y) (key ∷ []) && not (y.tool_id =ₜ tool_id))
        db.tool_external_ids
      ≡ false
unfolding find_tools_by_identifiers
owners-sole db key tool_id known h =
    let sel : ToolExternalIdRow → Bool = λ x. any (λ k. k =ₜ row_key x) (key ∷ []) in
    let ids = map (λ x. x.tool_id) (keep sel db.tool_external_ids) in
    let other : Text → Bool = λ i. not (i =ₜ tool_id) in
    let unknown : Text → Bool = λ i. not (is_tool db.tools i) in
    let exist : any unknown (distinct_texts ids) ≡ false =
      any-distinct_texts unknown ids
      ∙ any-map-keep unknown sel db.tool_external_ids
      ∙ any-narrower (λ x. unknown x.tool_id) sel db.tool_external_ids known in
    sym (any-map-keep other sel db.tool_external_ids)
    ∙ sym (any-distinct_texts other ids)
    ∙ sym (any-tools_of db other (distinct_texts ids) exist)
    ∙ h
