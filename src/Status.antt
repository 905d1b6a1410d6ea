-- ===== src/Status.antt =====
-- The status codes of iot_collector.h, and what a fallible function hands back.
use io_t_collector.Base.{◌≡◌, Bool, true, false, arith}

-- `iot_status_t`; a plain -1 is `err_generic`.
pub data Status : Type 0 where
  ok err_generic err_again err_full err_empty err_nomem : Status
  err_proto err_io err_timeout err_shutdown : Status

-- A value, or the code of a failure that leaves the output argument unwritten.
pub data Result {ℓ} (A : Type ℓ) : Type ℓ where
  done : A → Result A
  fail : Status → Result A

pub done-injective {ℓ} : {A : Type ℓ} {a b : A} → done a ≡ done b → a ≡ b
done-injective h = cc

-- `rc == IOT_OK`.
abbrev pub is_ok : Status → Bool
is_ok ok = true
is_ok _ = false

pub ok_of_is_ok : (s : Status) → is_ok s ≡ true → s ≡ ok
ok_of_is_ok s h = ground arith
