-- ===== src/Http/Tests.antt =====
-- Concrete requests to the metadata server.
use mooncake_maca_spdk_dmabu.Prelude.{true, some, [], ◌∷◌, ◌≡◌, refl, codes, text_eq}
use mooncake_maca_spdk_dmabu.Location.{strip_prefix}
use mooncake_maca_spdk_dmabu.Http.{
  Store, get, put, ok_status, handle, handle_put, contains, find, serve,
}
use mooncake_maca_spdk_dmabu.Http.Answers.{put-get, serve_keeps}

-- One node's RPC address.
abbrev store : Store
store = (codes "rpc_meta/a", codes "1") ∷ []

put_answers : (handle (put (codes "b") (codes "2")) store).0.0 ≡ ok_status
unfolding handle handle_put contains strip_prefix
put_answers = refl

put-get_example :
    (handle (get (codes "b")) (handle (put (codes "b") (codes "2")) store).1).0
    ≡ (ok_status, codes "2")
put-get_example = put-get (codes "b") (codes "2") store put_answers

is_rpc_meta : contains (codes "rpc_meta") (codes "rpc_meta/a") ≡ true
unfolding contains strip_prefix
is_rpc_meta = refl

is_stored : find (codes "rpc_meta/a") store ≡ some (codes "1")
unfolding find text_eq
is_stored = refl

serve_keeps_example :
    find (codes "rpc_meta/a") (serve (put (codes "rpc_meta/a") (codes "9") ∷ []) store)
    ≡ some (codes "1")
serve_keeps_example =
    serve_keeps (codes "rpc_meta/a") (codes "1") (put (codes "rpc_meta/a") (codes "9") ∷ []) store
      is_rpc_meta (refl, tt) is_stored
