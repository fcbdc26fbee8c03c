-- ===== src/Distributed/Primary/Scripts.antt =====
-- What the Lua scripts do to the server.
use Prim.Native.String.{String}
use agora_etl_plugins.Common.{
  ℕ, ◌+◌, ◌<◌, ◌≡◌, ◌∙◌, ap, sym, true, false, Option, none, some, arith, if◌then◌else◌, ltb, ◌&&◌,
  string_eq, nat_eq, ◌==◌,
}
use agora_etl_plugins.Distributed.Redis.{Redis, Payload}
use agora_etl_plugins.Distributed.Primary.{
  names, shows, acquire_script, decoded, release_script, renew_script,
}

module _ (R : Redis) (lease fence : String) (apart : (lease == fence) ≡ false) where
  -- The server before SET, once the counter has moved.
  abbrev counted : ℕ → R.Server → R.Server
  counted fence_ttl s =
      let s' = (R.incr fence s).1 in if ltb 0 fence_ttl then R.expire fence fence_ttl s' else s'

  get-counted : (fence_ttl : ℕ) (s : R.Server) → R.get lease (counted fence_ttl s) ≡ R.get lease s
  get-counted fence_ttl s = ground (
    arith,
    R.get-expire fence lease fence_ttl (R.incr fence s).1,
    R.get-incr fence lease s,
    string_eq.beq_iff lease fence,
    string_eq.beq_iff fence lease,
  )

  counter-counted :
      (fence_ttl : ℕ) (s : R.Server) → R.counter fence (counted fence_ttl s) ≡ R.counter fence s + 1
  counter-counted fence_ttl s = ground (
    arith,
    R.counter-expire fence fence fence_ttl (R.incr fence s).1,
    R.counter-incr fence fence s,
    string_eq.beq_iff fence fence,
  )

  -- A free lease is taken, with the next token.
  pub acquire_script-free :
      (worker at p : String) (run ttl fence_ttl : ℕ) (s : R.Server)
      → 0 < ttl
      → R.get lease s ≡ none
      → let (token, s') = acquire_script R lease fence worker at p run ttl fence_ttl s in
        (token ≡ some (R.counter fence s + 1))
        × (R.get lease s' ≡ some (R.encode worker at p run (R.counter fence s + 1)))
        × (R.counter fence s' ≡ R.counter fence s + 1)
  unfolding acquire_script
  acquire_script-free worker at p run ttl fence_ttl s positive free =
      let before = counted fence_ttl s in
      let token = (R.incr fence s).0 in
      let v = R.encode worker at p run token in
      let still = get-counted fence_ttl s ∙ free in
      ground (
        arith,
        R.incr-result fence s,
        still,
        counter-counted fence_ttl s,
        R.set_nx_ex-free lease v ttl before positive still,
        R.get-set_nx_ex lease lease v ttl before positive still,
        R.counter-set_nx_ex lease fence v ttl before apart,
        string_eq.beq_iff lease lease,
      )

  -- A lease that is held is left alone.
  pub acquire_script-held :
      (worker at p : String) (run ttl fence_ttl : ℕ) (s : R.Server) (v : R.Value)
      → R.get lease s ≡ some v
      → acquire_script R lease fence worker at p run ttl fence_ttl s ≡ (none, s)
  unfolding acquire_script
  acquire_script-held worker at p run ttl fence_ttl s v taken = ground arith

module _ (R : Redis) (lease : String) where
  -- The lease is given up exactly by its owner, who then finds it gone; no other lease is touched.
  pub release_script_lem :
      (worker : String) (token : ℕ) (s : R.Server) (k : String)
      → let (released, s') = release_script R lease worker token s in
        (released ≡ names (decoded R lease s) worker token)
        × (R.get k s' ≡ (if released && (lease == k) then none else R.get k s))
  unfolding release_script
  release_script_lem worker token s k = ground (arith, R.get-del lease k s)

  -- Renewing changes no value.
  pub renew_script_lem :
      (worker : String) (token ttl : ℕ) (s : R.Server) (k : String)
      → 0 < ttl
      → let (renewed, s') = renew_script R lease worker token ttl s in
        (renewed ≡ names (decoded R lease s) worker token) × (R.get k s' ≡ R.get k s)
  unfolding renew_script
  renew_script_lem worker token ttl s k positive =
      ground (arith, R.get-expire lease k ttl s positive)

-- A payload names one worker and one token.
pub shows_unique : (o : Option ℕ) (t : ℕ) → shows o t ≡ true → o ≡ some t
unfolding shows
shows_unique none t h = cc
shows_unique (some m) t h = ap some ((nat_eq.beq_iff m t).0 h)

pub names-owner :
    (p : Payload) (w : String) (t : ℕ)
    → names (some p) w t ≡ true
    → (p.worker_id ≡ w) × (p.fencing_token ≡ some t)
unfolding names
names-owner p w t h = (
  (string_eq.beq_iff p.worker_id w).0 (ground arith),
  shows_unique p.fencing_token t (ground arith),
)

pub names_unique :
    (p : Option Payload) (w w' : String) (t t' : ℕ)
    → names p w t ≡ true
    → names p w' t' ≡ true
    → (w ≡ w') × (t ≡ t')
unfolding names
names_unique none w w' t t' a b = cc
names_unique (some p) w w' t t' a b =
    let x = names-owner p w t a in
    let y = names-owner p w' t' b in (sym x.0 ∙ y.0, some-injective (sym x.1 ∙ y.1))
  where
    some-injective : {m n : ℕ} → ◌≡◌ {A = Option ℕ} (some m) (some n) → m ≡ n
    some-injective e = cc
