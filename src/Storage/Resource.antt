-- ===== src/Storage/Resource.antt =====
-- storage/resource.rs: a user's storage account.
use icn_covm.Prelude.{ℕ, ◌+◌, ◌-◌, ◌^◌, Bool, ◌++◌, Text, text, if◌then◌else◌, leb, min, not}
use icn_covm.Prelude.Actions.{Result, ok, err}
use icn_covm.Storage.Types.{Timestamp, StorageError, quota_exceeded}

-- `u64::MAX`
abbrev pub u64_max : ℕ
u64_max = 2 ^ 64 - 1

abbrev pub saturating_add : ℕ → ℕ → ℕ
saturating_add a b = min (a + b) u64_max

pub record ResourceAccount : Type 0 where
  pub owner_id : Text
  pub storage_quota_bytes : ℕ
  pub storage_used_bytes : ℕ
  pub last_updated : Timestamp

abbrev pub new : Timestamp → Text → ℕ → ResourceAccount
new now owner quota = record {
  owner_id = owner;
  storage_quota_bytes = quota;
  storage_used_bytes = 0;
  last_updated = now;
}

unfoldable pub can_store : ℕ → ResourceAccount → Bool
can_store bytes r = leb (saturating_add r.storage_used_bytes bytes) r.storage_quota_bytes

-- the new account, or the error; on an error the account is as it was
unfoldable pub add_usage : Timestamp → ℕ → ResourceAccount → Result StorageError ResourceAccount
unfolding can_store
add_usage now bytes r =
    if not (can_store bytes r)
    then err (
        quota_exceeded (text "Storage for account '" ++ (r.owner_id ++ text "'"))
          r.storage_used_bytes r.storage_quota_bytes)
    else ok (record r {
      storage_used_bytes = saturating_add r.storage_used_bytes bytes;
      last_updated = now;
    })

unfoldable pub reduce_usage : Timestamp → ℕ → ResourceAccount → ResourceAccount
reduce_usage now bytes r = record r {
  storage_used_bytes = r.storage_used_bytes - bytes;
  last_updated = now;
}
