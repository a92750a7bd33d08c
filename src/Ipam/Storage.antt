-- ===== src/Ipam/Storage.antt =====
-- `types.Storage` of pkg/ipam/types: a store of prefixes over an unknown state. An operation
-- returns the new state with the error; reads leave the state as it is. A missing prefix (nil) is
-- `none`.
use meridio.Base.{Option, String, List}
use meridio.Base.Result.{Result}
use meridio.Ipam.Prefix.{Prefix}

-- `ErrCIDRConflict`, and every other error.
pub data StoreError : Type 0 where
  cidr_conflict other_error : StoreError

pub record Storage : Type 1 where
  pub State : Type 0
  pub add : Prefix → State → State × Option StoreError
  pub update : Prefix → State → State × Option StoreError
  pub delete : Option Prefix → State → State × Option StoreError
  pub get : String → Option Prefix → State → Result StoreError (Option Prefix)
  pub get_childs : Prefix → State → Result StoreError (List Prefix)
