-- ===== src/UrlPolicy.antt =====
-- core/services/sources/url_policy.py: whether an outbound URL may be dialled. What Python's `urlparse`,
-- `ipaddress` and string methods do, and the resolver, are a `Host`.
pub mod Public
pub mod Tests
use flycanon.Prelude.{
  ℕ, ◌==◌, ◌&&◌, ◌||◌, not, String, str_eq, Bool, true, false, Option, none, some, List, [], ◌∷◌,
  is_some, if◌then◌else◌,
}
use flycanon.Prelude.Actions.{Outcome, ok, err}
use flycanon.Prelude.Strings.{partition}

-- `urlparse(url)`, as far as it is read, and the addresses of `ipaddress` with their properties.
pub record Host (A : Type 0) : Type 0 where
  pub scheme : String → String
  pub hostname : String → Option String
  pub lower : String → String
  pub rstrip_dots : String → String
  pub ends_with : String → String → Bool
  pub ip_address : String → Option A
  pub ipv4_mapped : A → Option A
  pub is_loopback : A → Bool
  pub is_link_local : A → Bool
  pub is_private : A → Bool
  pub is_multicast : A → Bool
  pub is_reserved : A → Bool
  pub is_unspecified : A → Bool
  pub is_site_local : A → Bool
  pub version : A → ℕ
  pub in_shared_space : A → Bool
  pub is_global : A → Bool
  pub resolve : String → Option (List String)

pub data Reason : Type 0 where
  invalid : Reason
  loopback : Reason
  link_local : Reason
  private_network : Reason
  multicast : Reason
  reserved : Reason
  unspecified : Reason
  site_local : Reason
  shared_space : Reason
  non_public : Reason

pub data Refusal : Type 0 where
  no_host : Refusal
  localhost : Refusal
  single_label : Refusal
  unresolved : Refusal
  forbidden_address : String → Reason → Refusal

pub data PolicyError : Type 0 where
  unsupported_scheme : String → PolicyError
  forbidden_host : String → Refusal → PolicyError

module _ {A : Type 0} (host : Host A) where
  abbrev pub unmapped : A → A
  unmapped a = from_mapped (host.ipv4_mapped a)
    where
      from_mapped : Option A → A
      from_mapped none = a
      from_mapped (some mapped) = mapped

  -- The first check that hits gives the reason.
  unfoldable pub reason_of : A → Option Reason
  reason_of a =
      if host.is_loopback a
      then some loopback
      else if host.is_link_local a
      then some link_local
      else if host.is_private a
      then some private_network
      else if host.is_multicast a
      then some multicast
      else if host.is_reserved a
      then some reserved
      else if host.is_unspecified a
      then some unspecified
      else if host.is_site_local a
      then some site_local
      else if host.version a == 4 && host.in_shared_space a
      then some shared_space
      else if not (host.is_global a)
      then some non_public
      else none

  unfoldable pub address_is_forbidden : String → Option Reason
  address_is_forbidden ip_text = checked (host.ip_address ip_text)
    where
      checked : Option A → Option Reason
      checked none = some invalid
      checked (some a) = reason_of (unmapped a)

  abbrev pub looks_like_ip : String → Bool
  looks_like_ip text = is_some (host.ip_address text)

  abbrev pub is_local_name : String → Bool
  is_local_name name =
      str_eq name "localhost"
      || (str_eq name "localhost.localdomain"
          || (str_eq name "ip6-localhost" || host.ends_with name ".localhost"))

  -- The addresses of a name: itself, or what the resolver answers.
  unfoldable pub addresses_of : String → Option (List String)
  addresses_of lowered = if looks_like_ip lowered then some (lowered ∷ []) else host.resolve lowered

  -- `for ip_text in addresses`
  unfoldable pub check_addresses : String → List String → Outcome PolicyError (Unit {0})
  check_addresses url [] = ok tt
  check_addresses url (ip_text ∷ addresses) =
      let rest = check_addresses url addresses in settled rest (address_is_forbidden ip_text)
    where
      settled : Outcome PolicyError (Unit {0}) → Option Reason → Outcome PolicyError (Unit {0})
      settled rest none = rest
      settled rest (some reason) = err (forbidden_host url (forbidden_address ip_text reason))

  -- A resolver that raises, and one that answers nothing.
  unfoldable pub check_resolved :
      String → String → Option (List String) → Outcome PolicyError (Unit {0})
  check_resolved url lowered none = err (forbidden_host lowered unresolved)
  check_resolved url lowered (some []) = err (forbidden_host url unresolved)
  check_resolved url lowered (some (ip_text ∷ addresses)) =
      check_addresses url (ip_text ∷ addresses)

  unfoldable pub check_name : String → String → Outcome PolicyError (Unit {0})
  check_name url lowered =
      if is_local_name lowered
      then err (forbidden_host url localhost)
      else if not (is_some (partition "." lowered)) && not (looks_like_ip lowered)
      then err (forbidden_host url single_label)
      else check_resolved url lowered (addresses_of lowered)

  abbrev pub lowered_of : String → String
  lowered_of hostname = host.rstrip_dots (host.lower hostname)

  unfoldable pub check_host : Bool → String → Option String → Outcome PolicyError (Unit {0})
  check_host allow_private url none = err (forbidden_host url no_host)
  check_host allow_private url (some hostname) =
      if str_eq hostname ""
      then err (forbidden_host url no_host)
      else if allow_private
      then ok tt
      else check_name url (lowered_of hostname)

  unfoldable pub check_sync : Bool → String → Outcome PolicyError (Unit {0})
  check_sync allow_private url =
      let scheme = host.lower (host.scheme url) in
      if str_eq scheme "http" || str_eq scheme "https"
      then check_host allow_private url (host.hostname url)
      else err (unsupported_scheme scheme)
