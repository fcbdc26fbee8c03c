-- ===== src/Distributed/Keys.antt =====
-- `lease_key` and `fencing_key` of distributed/primary_lease_store.py: the keys of pipelines do not clash.
use Prim.Native.String.{String, ◌++◌}
use text.Mathlib.TextEquality.{eq_iff}
use text.Mathlib.TextLemmas.{append_cancel_left, append_inj}
use agora_etl_plugins.Common.{◌≡◌, ◌≢◌, refl, arith, false, string_eq, ◌==◌}

unfoldable pub lease_key : String → String → String
lease_key key_prefix pipeline_id = key_prefix ++ ("lease:" ++ pipeline_id)

unfoldable pub fencing_key : String → String → String
fencing_key key_prefix pipeline_id = key_prefix ++ ("fence:" ++ pipeline_id)

two_names : ◌≢◌ {A = String} "lease:" "fence:"
two_names = ground (arith, eq_iff "lease:" "fence:")

-- No lease key is a fencing key.
pub lease_key-ne-fencing_key :
    (prefix p q : String) → (lease_key prefix p == fencing_key prefix q) ≡ false
unfolding lease_key fencing_key
lease_key-ne-fencing_key prefix p q =
    let apart : ("lease:" ++ p) ≢ ("fence:" ++ q) =
      λ e. two_names (append_inj {s₁ = "lease:"} {s₂ = "fence:"} {t₁ = p} {t₂ = q} e refl).0 in
    ground (
      arith,
      eq_iff (lease_key prefix p) (fencing_key prefix q),
      append_cancel_left prefix ("lease:" ++ p) ("fence:" ++ q),
      apart,
    )

pub lease_key-injective : (prefix p q : String) → lease_key prefix p ≡ lease_key prefix q → p ≡ q
unfolding lease_key
lease_key-injective prefix p q e =
    append_cancel_left "lease:" p q (append_cancel_left prefix ("lease:" ++ p) ("lease:" ++ q) e)

pub fencing_key-injective :
    (prefix p q : String) → fencing_key prefix p ≡ fencing_key prefix q → p ≡ q
unfolding fencing_key
fencing_key-injective prefix p q e =
    append_cancel_left "fence:" p q (append_cancel_left prefix ("fence:" ++ p) ("fence:" ++ q) e)
