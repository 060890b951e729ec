-- ===== src/Cache/Tests.antt =====
-- A token put into an empty cache, and dropped again.
use encedo_hem_c_api.Prelude.{some, [], ◌∷◌, codes, bytes_eq, if◌then◌else◌, ◌≡◌, refl}
use encedo_hem_c_api.Prelude.Int.{pos}
use encedo_hem_c_api.Context.{TokenEntry}
use encedo_hem_c_api.Env.{ok}
use encedo_hem_c_api.Monad.{State}
use encedo_hem_c_api.Cache.{find, put}
use encedo_hem_c_api.Cache.Laws.{IsMap, empty, token_at, put-token_at}
use encedo_hem_c_api.Fixture.{World, test_env, start}

abbrev listing : TokenEntry
listing = record { scope = codes "list"; token = codes "a.b.c"; exp = pos 2000 }

abbrev after_put : State World
after_put = (put [] (codes "list") (codes "a.b.c") (pos 2000) start).1

put_empty :
    put [] (codes "list") (codes "a.b.c") (pos 2000) start
    ≡ (ok (some (listing ∷ [], listing)), after_put)
unfolding put find
put_empty = refl

put-token_at_example :
    (codes "a.b.c" ≡ codes "a.b.c")
    × (token_at (listing ∷ []) (codes "other") ≡ (
        if bytes_eq (codes "list") (codes "other")
        then some (codes "a.b.c", pos 2000)
        else token_at [] (codes "other")))
    × IsMap (listing ∷ [])
put-token_at_example =
    put-token_at [] (listing ∷ []) (codes "list") (codes "a.b.c") (codes "other") (pos 2000) listing
      start after_put empty put_empty
