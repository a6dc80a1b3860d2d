-- ===== src/Network.antt =====
-- src/lib/network.ts: the two networks that the faucet pays on, and the parsing of their names.
use zcash_faucet.Base.{
  Bool, true, false, String, str_eq, Option, none, some, if◌then◌else◌, List, [], ◌∷◌,
}

pub data Network : Type 0 where
  taz ctaz : Network

-- `a === b` on networks.
abbrev pub same_network : Network → Network → Bool
same_network taz taz = true
same_network ctaz ctaz = true
same_network taz ctaz = false
same_network ctaz taz = false

abbrev pub default_network : Network
default_network = taz

abbrev pub networks : List Network
networks = taz ∷ ctaz ∷ []

unfoldable pub parse_network : String → Option Network
parse_network raw =
    if str_eq raw "taz" then some taz else if str_eq raw "ctaz" then some ctaz else none
