-- ===== src/Auth/Nonce.antt =====
-- The store of sign-in nonces in memory (server/src/db/nonce-store.ts, createMemoryStore). A call reads
-- the clock once; the map is the function of its `get`.
use learnvault.Prelude.{
  ℕ, ◌+◌, ◌*◌, ◌≤◌, ◌≡◌, refl, String, Option, none, some, Bool, true, false, leb, ltb, str_eq,
  str_eq→eq, str_eq_refl, sym, ap, ◌∙◌, Bool-cases, inl, inr, if◌then◌else◌, arith,
}

-- expires_at in milliseconds.
pub record MemoryEntry : Type 0 where
  pub nonce : String
  pub expires_at : ℕ

abbrev pub Memory : Type 0
Memory = String → Option MemoryEntry

-- `map.set` and `map.delete`
unfoldable pub put : String → Option MemoryEntry → Memory → Memory
put a e map = λ b. if str_eq a b then e else map b

abbrev pub is_expired : ℕ → Option MemoryEntry → Bool
is_expired now none = false
is_expired now (some e) = leb e.expires_at now

unfoldable pub sweep : ℕ → String → Memory → Memory
sweep now a map = if is_expired now (map a) then put a none map else map

abbrev pub nonce_of : Option MemoryEntry → Option String
nonce_of none = none
nonce_of (some e) = some e.nonce

unfoldable pub get_nonce : ℕ → String → Memory → Option String × Memory
unfolding sweep
get_nonce now a map = let swept = sweep now a map in (nonce_of (swept a), swept)

-- The `existing` entry that is returned.
abbrev pub live : ℕ → Option MemoryEntry → Option String
live now none = none
live now (some e) = if ltb now e.expires_at then some e.nonce else none

abbrev pub set_or_keep : ℕ → ℕ → String → String → Option String → Memory → String × Memory
set_or_keep now ttl a nonce (some kept) map = (kept, map)
set_or_keep now ttl a nonce none map =
    (nonce, put a (some (record { nonce = nonce; expires_at = now + ttl * 1000 })) map)

unfoldable pub get_or_set_nonce : ℕ → ℕ → String → String → Memory → String × Memory
unfolding sweep
get_or_set_nonce now ttl a nonce map =
    let swept = sweep now a map in set_or_keep now ttl a nonce (live now (swept a)) swept

unfoldable pub delete_nonce : String → Memory → Memory
delete_nonce a map = put a none map

-- The nonce of an address at a moment: what the store promises to keep.
abbrev pub view : Memory → ℕ → String → Option String
view map now a = live now (map a)

pub put-same : (a : String) (e : Option MemoryEntry) (map : Memory) → put a e map a ≡ e
unfolding put
put-same a e map = rw (str_eq_refl a) refl

pub put-other :
    (a b : String) (e : Option MemoryEntry) (map : Memory)
    → str_eq a b ≡ false
    → put a e map b ≡ map b
unfolding put
put-other a b e map h = rw h refl

view-put :
    (a : String) (e : Option MemoryEntry) (map : Memory) (t : ℕ) (b : String)
    → view (put a e map) t b ≡ (if str_eq a b then live t e else view map t b)
unfolding put
view-put a e map t b = elim (Bool-cases (str_eq a b)) [ inl h ↦ rw h refl | inr h ↦ rw h refl ]

expired_live :
    (now t : ℕ) (e : Option MemoryEntry) → is_expired now e ≡ true → now ≤ t → live t e ≡ none
expired_live now t none h k = refl
expired_live now t (some e) h k = ground (arith, h, k)

-- Sweeping an address shows at no later moment.
pub view-sweep :
    (now t : ℕ) (a b : String) (map : Memory) → now ≤ t → view (sweep now a map) t b ≡ view map t b
unfolding sweep
view-sweep now t a b map k = elim (Bool-cases (is_expired now (map a))) [
  | inl e ↦
      rw (e, view-put a none map t b)
        (elim (Bool-cases (str_eq a b)) [
          | inl h ↦
              rw h (sym (expired_live now t (map a) e k) ∙ ap (λ c. view map t c) (str_eq→eq a b h))
          | inr h ↦ rw h refl
        ])
  | inr e ↦ rw e refl
]

nonce_live : (now : ℕ) (e : Option MemoryEntry) → is_expired now e ≡ false → nonce_of e ≡ live now e
nonce_live now none h = refl
nonce_live now (some e) h = ground (arith, h)

swept_nonce : (now : ℕ) (a : String) (map : Memory) → nonce_of (sweep now a map a) ≡ view map now a
unfolding sweep
swept_nonce now a map = elim (Bool-cases (is_expired now (map a))) [
  | inl e ↦ rw (e, put-same a none map, expired_live now now (map a) e (omega arith)) refl
  | inr e ↦ rw e (nonce_live now (map a) e)
]

-- What reading a nonce promises: the nonce is returned and no later moment sees a change.
pub get_nonce-view :
    (now : ℕ) (a : String) (map : Memory)
    → ((get_nonce now a map).0 ≡ view map now a)
      × ((t : ℕ) (b : String) → now ≤ t → view (get_nonce now a map).1 t b ≡ view map t b)
unfolding get_nonce
get_nonce-view now a map = (swept_nonce now a map, λ t b k. view-sweep now t a b map k)

abbrev pub or_fresh : String → Option String → String
or_fresh nonce none = nonce
or_fresh nonce (some kept) = kept

-- The nonce of `b` at `t`, if it was `v` before and `a` had the nonce `held` when a new one was offered.
abbrev pub after_set :
    ℕ → ℕ → String → String → Option String → ℕ → String → Option String → Option String
after_set now ttl a nonce (some kept) t b v = v
after_set now ttl a nonce none t b v =
    if str_eq a b then (if ltb t (now + ttl * 1000) then some nonce else none) else v

set_or_keep-view :
    (now ttl : ℕ) (a nonce : String) (held : Option String) (map : Memory)
    → ((set_or_keep now ttl a nonce held map).0 ≡ or_fresh nonce held)
      × ((t : ℕ) (b : String)
          → view (set_or_keep now ttl a nonce held map).1 t b
            ≡ after_set now ttl a nonce held t b (view map t b))
set_or_keep-view now ttl a nonce (some kept) map = (refl, λ t b. refl)
set_or_keep-view now ttl a nonce none map = (
  refl,
  λ t b. view-put a (some (record { nonce = nonce; expires_at = now + ttl * 1000 })) map t b,
)

-- A nonce that is held is returned and kept, with its expiry; else the new one is returned and held
-- until its time to live has passed. The nonces of other addresses stay.
pub get_or_set_nonce-view :
    (now ttl : ℕ) (a nonce : String) (map : Memory)
    → let held = view map now a in
      let r = get_or_set_nonce now ttl a nonce map in
      (r.0 ≡ or_fresh nonce held)
      × ((t : ℕ) (b : String)
          → now ≤ t
          → view r.1 t b ≡ after_set now ttl a nonce held t b (view map t b))
unfolding get_or_set_nonce
get_or_set_nonce-view now ttl a nonce map =
    let swept = sweep now a map in
    let same : live now (swept a) ≡ view map now a = view-sweep now now a a map (omega arith) in
    let set = set_or_keep-view now ttl a nonce (live now (swept a)) swept in
    (
      set.0 ∙ ap (or_fresh nonce) same,
      λ t b k.
          set.1 t b
          ∙ ap (λ h. after_set now ttl a nonce h t b (view swept t b)) same
          ∙ ap (after_set now ttl a nonce (view map now a) t b) (view-sweep now t a b map k),
    )

-- A deleted nonce is gone at every moment, and the others stay.
pub delete_nonce-view :
    (a : String) (map : Memory) (t : ℕ) (b : String)
    → view (delete_nonce a map) t b ≡ (if str_eq a b then none else view map t b)
unfolding delete_nonce
delete_nonce-view a map t b = view-put a none map t b
