-- ===== src/Tests/SampleRedis.antt =====
-- A Redis server in a list, and a JSON of numbers, over which the tests run.
use mathlib.Core.List.{lookup}
use tcpunch.Base.{
  ℕ, zero, suc, List, [], ◌∷◌, ◌++◌, Option, none, some, Bool, true, false, Name, name_discrete,
  ◌≡◌, ◌∙◌, sym, ap, refl, arith, ltb, leb, ◌&&◌, if◌then◌else◌, get_elem?, none-ne-some,
  ne-of-some, some-injective, ◌≤◌, ◌<◌, Bool-cases, inl, inr, if_neg, if_pos, ℕ_discrete, ◌^◌,
  subst, ite,
}
use tcpunch.Platform.{IsKeyed}
use tcpunch.Platform.Assoc.{
  Assoc, insert_assoc, lookup-insert_assoc, lookup-erase, erase_key, erase-IsKeyed,
}
use tcpunch.Platform.Redis.{RedisApi}
use tcpunch.Protocol.{PeerConnectionData}
use tcpunch.Registry.{WaitingClient}
use tcpunch.Registry.Json.{JsonApi}
use tcpunch.Tests.Sample.{
  sample_platform as P, SampleId, digit, parse_digit, zero_id, id_a, id_b, id_c, id_d,
}

abbrev pub Keys : Type 0
Keys = Assoc Name Name name_discrete

-- What is left of a text after a prefix.
abbrev pub strip : Name → Name → Option Name
strip [] k = some k
strip (a ∷ p) [] = none
strip (a ∷ p) (b ∷ k) = elim (ℕ_discrete a b) [ yes e ↦ strip p k | no e ↦ none ]

pub strip-append : (p n : Name) → strip p (p ++ n) ≡ some n
strip-append [] n = refl
strip-append (a ∷ p) n =
    elim (ℕ_discrete a a) as (λ d. elim d [ yes e ↦ strip p (p ++ n) | no e ↦ none ] ≡ some n) [
      | yes e ↦ strip-append p n
      | no e ↦ absurd (e refl)
    ]

pub strip_sound : (p k n : Name) → strip p k ≡ some n → k ≡ p ++ n
strip_sound [] k n h = some-injective k n h
strip_sound (a ∷ p) [] n h = absurd (none-ne-some h)
strip_sound (a ∷ p) (b ∷ k) n h = go (λ q. strip_sound p k n q) (ℕ_discrete a b) h
  where
    go :
        (strip p k ≡ some n → k ≡ p ++ n)
        → (d : Dec (a ≡ b)) → elim d [ yes e ↦ strip p k | no e ↦ none ] ≡ some n
        → b ∷ k ≡ a ∷ (p ++ n)
    go deeper (yes e) h = let rest = deeper h in cc
    go deeper (no e) h = absurd (none-ne-some h)

abbrev pub keep : Option Name → Name → List Name → List Name
keep none k ks = ks
keep (some n) k ks = k ∷ ks

abbrev pub matching : Name → List (Name × Name) → List Name
matching p [] = []
matching p ((k, v) ∷ es) = keep (strip p k) k (matching p es)

pub matching_complete :
    (p n v : Name) (es : List (Name × Name))
    → lookup name_discrete (p ++ n) es ≡ some v
    → (i : ℕ) × (get_elem? (matching p es) i ≡ some (p ++ n))
unfolding lookup
matching_complete p n v [] h = absurd (none-ne-some h)
matching_complete p n v ((k, w) ∷ es) h = elim (name_discrete (p ++ n) k) [
  | yes e ↦ (0, rw (← e, strip-append p n) refl)
  | no e ↦ later (strip p k) (
      matching_complete p n v es
        (sym (if_neg (name_discrete (p ++ n) k) e (some w) (lookup name_discrete (p ++ n) es)) ∙ h))
]
  where
    later :
        (o : Option Name)
        → ((i : ℕ) × (get_elem? (matching p es) i ≡ some (p ++ n)))
        → (i : ℕ) × (get_elem? (keep o k (matching p es)) i ≡ some (p ++ n))
    later none (i, e) = (i, e)
    later (some m) (i, e) = (suc i, e)

pub matching_sound :
    (p : Name) (es : List (Name × Name)) (i : ℕ) (k : Name)
    → IsKeyed name_discrete es
    → get_elem? (matching p es) i ≡ some k
    → (n : Name) × (v : Name) × (k ≡ p ++ n) × (lookup name_discrete k es ≡ some v)
unfolding lookup
matching_sound p [] i k keyed h = absurd (none-ne-some h)
matching_sound p ((j, w) ∷ es) i k keyed h =
    go (λ i' q. matching_sound p es i' k keyed.1 q) (strip p j) refl i h
  where
    deeper :
        ((n : Name) × (v : Name) × (k ≡ p ++ n) × (lookup name_discrete k es ≡ some v))
        → (n : Name) × (v : Name) × (k ≡ p ++ n) × (lookup name_discrete k ((j, w) ∷ es) ≡ some v)
    deeper (n, v, e, at) = (
      n,
      v,
      e,
      if_neg (name_discrete k j)
            (λ q. ne-of-some keyed.0 (ap (λ x. lookup name_discrete x es) (sym q) ∙ at)) (some w)
            (lookup name_discrete k es)
          ∙ at,
    )

    go :
        ((i' : ℕ)
          → get_elem? (matching p es) i' ≡ some k
          → (n : Name) × (v : Name) × (k ≡ p ++ n) × (lookup name_discrete k es ≡ some v))
        → (o : Option Name) → strip p j ≡ o
        → (i' : ℕ) → get_elem? (keep o j (matching p es)) i' ≡ some k
        → (n : Name) × (v : Name) × (k ≡ p ++ n) × (lookup name_discrete k ((j, w) ∷ es) ≡ some v)
    go ih none s i' h = deeper (ih i' h)
    go ih (some n) s zero h =
        let same : j ≡ k = some-injective j k h in
        (
          n,
          w,
          sym same ∙ strip_sound p j n s,
          if_pos (name_discrete k j) (sym same) (some w) (lookup name_discrete k es),
        )
    go ih (some n) s (suc i') h = deeper (ih i' h)

abbrev pub largest : ℕ
largest = 1000000

-- The expire times from 1 to the largest.
abbrev pub in_range : ℕ → Bool
in_range seconds = ltb 0 seconds && leb seconds largest

abbrev pub sample_setex : Keys → Name → ℕ → Name → Option Keys
sample_setex s k seconds v =
    if in_range seconds then some (insert_assoc name_discrete s k v) else none

abbrev pub sample_del : Keys → Name → Keys
sample_del s k = record {
  items = erase_key name_discrete k s.items;
  keyed = erase-IsKeyed name_discrete k s.items s.keyed;
}

pub largest-lt : largest < 2 ^ 63
largest-lt = omega arith

abbrev pub is_some : Option Name → Bool
is_some none = false
is_some (some v) = true

pub sample_setex_in_range :
    (s : Keys) (k : Name) (seconds : ℕ) (v : Name)
    → 0 < seconds
    → seconds ≤ largest
    → (s' : Keys) × (sample_setex s k seconds v ≡ some s')
sample_setex_in_range s k seconds v pos small =
    let e : in_range seconds ≡ true = ground arith in (insert_assoc name_discrete s k v, rw e refl)

pub sample_setex_large :
    (s : Keys) (k : Name) (seconds : ℕ) (v : Name)
    → largest < seconds
    → sample_setex s k seconds v ≡ none
sample_setex_large s k seconds v large =
    let e : in_range seconds ≡ false = ground arith in rw e refl

pub lookup-sample_setex :
    (s s' : Keys) (k j : Name) (seconds : ℕ) (v : Name)
    → sample_setex s k seconds v ≡ some s'
    → lookup name_discrete j s'.items
      ≡ ite (name_discrete k j) (some v) (lookup name_discrete j s.items)
lookup-sample_setex s s' k j seconds v h = elim (Bool-cases (in_range seconds)) [
  | inl e ↦
      let same : insert_assoc name_discrete s k v ≡ s' =
        some-injective (insert_assoc name_discrete s k v) s' (rw e at h) in
      subst
        (λ (t : Keys).
          lookup name_discrete j t.items
          ≡ ite (name_discrete k j) (some v) (lookup name_discrete j s.items))
        same (lookup-insert_assoc name_discrete s k j v)
  | inr e ↦ absurd (none-ne-some {a = s'} (rw e at h))
]

abbrev pub sample_redis : RedisApi
sample_redis = record {
  Store = Keys;
  get = λ s k. lookup name_discrete k s.items;
  setex = sample_setex;
  del = sample_del;
  getdel = λ s k. (sample_del s k, lookup name_discrete k s.items);
  exists = λ s k. is_some (lookup name_discrete k s.items);
  keys = λ s p. matching p s.items;
  publish = λ s c m. s;
  max_seconds = largest;
  max_seconds-lt = largest-lt;
  setex_in_range = sample_setex_in_range;
  setex_zero = λ s k v. refl;
  setex_large = sample_setex_large;
  get-setex = lookup-sample_setex;
  get-del = lookup-erase name_discrete;
  getdel-eq = λ s k. refl;
  exists-none = λ s k h. ap is_some h;
  exists-some = λ s k v h. ap is_some h;
  get-publish = λ s c m k. refl;
  keys_complete = λ s p n v h. matching_complete p n v s.items h;
  keys_sound = λ s p i k h. matching_sound p s.items i k s.keyed h;
}

abbrev pub write_waiting : WaitingClient P → Name
write_waiting w =
    let i = w.connection_info in
    i.ip.a
    ∷ i.ip.b
    ∷ i.ip.c
    ∷ i.ip.d
    ∷ i.port
    ∷ digit w.reconnect_token
    ∷ w.registered_at
    ∷ w.server_id

abbrev pub with_token : PeerConnectionData → ℕ → Name → Option SampleId → Option (WaitingClient P)
with_token info date server_id none = none
with_token info date server_id (some token) = some (record {
  connection_info = info;
  reconnect_token = token;
  server_id = server_id;
  registered_at = date;
})

abbrev pub read_waiting : Name → Option (WaitingClient P)
read_waiting (a ∷ b ∷ c ∷ d ∷ port ∷ t ∷ date ∷ server_id) =
    with_token (record { ip = record { a = a; b = b; c = c; d = d }; port = port }) date server_id
      (parse_digit t)
read_waiting _ = none

pub parse_digit-digit : (u : SampleId) → parse_digit (digit u) ≡ some u
parse_digit-digit zero_id = refl
parse_digit-digit id_a = refl
parse_digit-digit id_b = refl
parse_digit-digit id_c = refl
parse_digit-digit id_d = refl

pub read-write_waiting :
    (w : WaitingClient P) (text : Name)
    → some (write_waiting w) ≡ some text
    → read_waiting text ≡ some w
read-write_waiting w text h =
    subst (λ t. read_waiting t ≡ some w) (some-injective (write_waiting w) text h)
      (rw (parse_digit-digit w.reconnect_token) refl)

abbrev pub sample_json : JsonApi P
sample_json = record {
  waiting_to_string = λ w. some (write_waiting w);
  waiting_from_str = read_waiting;
  info_to_string = λ i. some (i.port ∷ []);
  waiting_written = λ w. (write_waiting w, refl);
  waiting_read = read-write_waiting;
  info_written = λ i. (i.port ∷ [], refl);
}
