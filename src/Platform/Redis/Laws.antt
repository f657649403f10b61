-- ===== src/Platform/Redis/Laws.antt =====
-- Laws of the commands of a Redis server, derived from the documented ones of `Platform/Redis`.
use tcpunch.Base.{ℕ, Name, some, none, name_discrete, ◌≡◌, ◌≢◌, ◌∙◌, refl, if_pos, if_neg}
use tcpunch.Platform.Redis.{RedisApi}

module _ (R : RedisApi) where
  open R use {Store, get, setex, del, get-setex, get-del}

  module _ (s s' : Store) (k j : Name) (seconds : ℕ) (v : Name)
      (done : setex s k seconds v ≡ some s') where
    pub get-setex_self : get s' k ≡ some v
    get-setex_self = get-setex s s' k k seconds v done ∙ if_pos (name_discrete k k) refl _ _

    pub get-setex_ne : k ≢ j → get s' j ≡ get s j
    get-setex_ne h = get-setex s s' k j seconds v done ∙ if_neg (name_discrete k j) h _ _

  pub get-del_self : (s : Store) (k : Name) → get (del s k) k ≡ none
  get-del_self s k = get-del s k k ∙ if_pos (name_discrete k k) refl _ _

  pub get-del_ne : (s : Store) (k j : Name) → k ≢ j → get (del s k) j ≡ get s j
  get-del_ne s k j h = get-del s k j ∙ if_neg (name_discrete k j) h _ _
