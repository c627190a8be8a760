-- ===== src/Http/Answers.antt =====
-- What the server answers after what it was told.
use mooncake_maca_spdk_dmabu.Prelude.{
  Bool, true, false, some, List, [], ◌∷◌, Text, text_eq, codes, is_empty, ◌≡◌, subst, arith,
  Bool-cases, Option-cases, inl, inr, All,
}
use mooncake_maca_spdk_dmabu.Http.{
  Store, find, contains, Request, get, put, delete, health, ok_status, not_found, handle_get,
  handle_put, handle_delete, handle, serve,
}
use mooncake_maca_spdk_dmabu.Http.Table.{
  text_eq→eq, find-erase, find-erase_other, find-assign, find-assign_other,
}

put_ok :
    (key body : Text) (s : Store)
    → (handle_put key body s).0.0 ≡ ok_status
    → (is_empty key ≡ false) × (find key (handle_put key body s).1 ≡ some body)
put_ok key body s e = elim (Option-cases (find key s)) [
  | inl q ↦ (
    unfold handle_put in ground arith,
    unfold handle_put in ground (arith, find-assign key body s),
  )
  | inr (v, q) ↦ elim (Bool-cases (text_eq v body)) [
    | inl t ↦
        let same = text_eq→eq v body t in
        (
          unfold handle_put in ground arith,
          unfold handle_put in ground (arith, find-assign key body s, same),
        )
    | inr t ↦ (
      unfold handle_put in ground arith,
      unfold handle_put in ground (arith, find-assign key body s),
    )
  ]
]

get_some :
    (key v : Text) (s : Store)
    → is_empty key ≡ false
    → find key s ≡ some v
    → (handle_get key s).0 ≡ (ok_status, v)
unfolding handle_get
get_some key v s e f = ground arith

-- After a PUT that is answered ok, a GET of the key answers the body.
pub put-get :
    (key body : Text) (s : Store)
    → (handle (put key body) s).0.0 ≡ ok_status
    → (handle (get key) (handle (put key body) s).1).0 ≡ (ok_status, body)
unfolding handle
put-get key body s e =
    let (full, stored) = put_ok key body s e in
    get_some key body (handle_put key body s).1 full stored

-- After a DELETE of a key that is not empty, a GET answers that there is none.
pub delete-get :
    (key : Text) (s : Store)
    → is_empty key ≡ false
    → (handle (get key) (handle (delete key) s).1).0.0 ≡ not_found
unfolding handle handle_delete handle_get
delete-get key s e = ground (arith, find-erase key s)

-- The request deletes the key.
abbrev pub is_delete_of : Text → Request → Bool
is_delete_of key (delete k) = text_eq key k
is_delete_of key _ = false

keeps :
    (key v : Text) (r : Request) (s : Store)
    → contains (codes "rpc_meta") key ≡ true
    → is_delete_of key r ≡ false
    → find key s ≡ some v
    → find key (handle r s).1 ≡ some v
unfolding handle
keeps key v (get k) s c n f = unfold handle_get in ground arith
keeps key v (put k b) s c n f = elim (Bool-cases (text_eq key k)) [
  | inl t ↦
      let same : key ≡ k = text_eq→eq key k t in
      subst (λ x. find key (handle_put x b s).1 ≡ some v) same (unfold handle_put in ground arith)
  | inr t ↦ unfold handle_put in ground (arith, find-assign_other key k b s t)
]
keeps key v (delete k) s c n f = unfold handle_delete in ground (arith, find-erase_other key k s n)
keeps key v health s c n f = f

-- A stored entry whose key contains "rpc_meta" keeps its value through every sequence of requests
-- that does not delete the key.
pub serve_keeps :
    (key v : Text) (rs : List Request) (s : Store)
    → contains (codes "rpc_meta") key ≡ true
    → All (λ r. is_delete_of key r ≡ false) rs
    → find key s ≡ some v
    → find key (serve rs s) ≡ some v
unfolding serve
serve_keeps key v [] s c n f = f
serve_keeps key v (r ∷ rs) s c (n, ns) f =
    serve_keeps key v rs (handle r s).1 c ns (keeps key v r s c n f)
