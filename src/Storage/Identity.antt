-- ===== src/Storage/Identity.antt =====
-- identity.rs: an identity and its profile. `J` is the type of JSON values, serde_json's.
use icn_covm.Prelude.{ℕ, List, Option, Text, Dict}

pub record Profile (J : Type 0) : Type 0 where
  pub public_username : Text
  pub full_name : Option Text
  pub other_fields : Dict J

pub record Identity (J : Type 0) : Type 0 where
  pub did : Text
  pub public_key_bytes : List ℕ
  pub private_key_bytes : Option (List ℕ)
  pub public_key_multibase : Text
  pub profile : Profile J
  pub identity_type : Text
