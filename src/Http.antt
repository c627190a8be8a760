-- ===== src/Http.antt =====
-- The metadata server of mooncake-store/src/http_metadata_server.cpp: its handlers as functions on
-- the store, which is a map from keys to values. The HTTP library is outside; a request is its
-- method, the value of its query parameter `key` and its body. A handler holds the store's lock for
-- all it does with the store, so that concurrent requests are some sequence of `handle`.
pub mod Table
pub mod Answers
pub mod Tests
use mooncake_maca_spdk_dmabu.Prelude.{
  Bool, true, false, ◌||◌, Option, none, some, List, [], ◌∷◌, if◌then◌else◌, Text, codes, text_eq,
  is_empty,
}
use mooncake_maca_spdk_dmabu.Location.{strip_prefix}

-- `store_`, with one entry for a key.
abbrev pub Store : Type 0
Store = List (Text × Text)

unfoldable pub find : Text → Store → Option Text
find key [] = none
find key ((k, v) ∷ s) = let rest = find key s in if text_eq key k then some v else rest

unfoldable pub erase : Text → Store → Store
erase key [] = []
erase key ((k, v) ∷ s) = let rest = erase key s in if text_eq key k then rest else (k, v) ∷ rest

-- `store_[key] = body`
unfoldable pub assign : Text → Text → Store → Store
assign key body s = (key, body) ∷ erase key s

abbrev has_prefix : Text → Text → Bool
has_prefix p t = elim (strip_prefix p t) [ none ↦ false | some r ↦ true ]

-- `text.find(part) != npos`
unfoldable pub contains : Text → Text → Bool
contains part [] = has_prefix part []
contains part (c ∷ t) = has_prefix part (c ∷ t) || contains part t

pub data Request : Type 0 where
  get : Text → Request
  put : Text → Text → Request
  delete : Text → Request
  health : Request

pub data StatusType : Type 0 where
  ok_status bad_request not_found : StatusType

-- The status and the content.
abbrev pub Response : Type 0
Response = StatusType × Text

abbrev missing_key : Response
missing_key = (bad_request, codes "Missing key parameter")

abbrev absent : Response
absent = (not_found, codes "metadata not found")

unfoldable pub handle_get : Text → Store → Response × Store
handle_get key s =
    if is_empty key
    then (missing_key, s)
    else elim (find key s) [ none ↦ (absent, s) | some v ↦ ((ok_status, v), s) ]

unfoldable pub handle_put : Text → Text → Store → Response × Store
handle_put key body s =
    let stored : Response × Store = ((ok_status, codes "metadata updated"), assign key body s) in
    if is_empty key
    then (missing_key, s)
    else if contains (codes "rpc_meta") key
    then elim (find key s) [
      | none ↦ stored
      | some v ↦
          if text_eq v body
          then ((ok_status, codes "metadata unchanged"), s)
          else ((bad_request, codes "Duplicate rpc_meta key not allowed"), s)
    ]
    else stored

unfoldable pub handle_delete : Text → Store → Response × Store
handle_delete key s = if is_empty key then (missing_key, s) else elim (find key s) [
  | none ↦ (absent, s)
  | some v ↦ ((ok_status, codes "metadata deleted"), erase key s)
]

unfoldable pub handle : Request → Store → Response × Store
handle (get key) s = handle_get key s
handle (put key body) s = handle_put key body s
handle (delete key) s = handle_delete key s
handle health s = ((ok_status, codes "OK"), s)

-- The store after a sequence of requests.
unfoldable pub serve : List Request → Store → Store
serve [] s = s
serve (r ∷ rs) s = serve rs (handle r s).1
