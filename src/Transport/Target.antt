-- ===== src/Transport/Target.antt =====
-- `RpcTarget` of src/transport/mod.rs and the arguments of OpenSSH in src/transport/ssh.rs, on Unix. A path is
-- its text, or `none` where it is no Unicode.
pub mod Laws
pub mod Arguments
use Prim.Native.String
use styrn.Common.{
  ℕ, ◌==◌, Bool, true, false, not, ◌&&◌, ◌||◌, Option, none, some, String, len, List, [], ◌∷◌, ◌++◌,
  ltb, leb, all, Result, ok, err, ◌>>=◌, ◌>>◌, ok_or, refuse_if, if◌then◌else◌,
}
use styrn.Common.Text.{codes, empty_text, is_alphanumeric, has_control}
use styrn.Common.Chars.{starts_with}
use styrn.Common.Decimal.{decimal}
use styrn.Output.Code.{
  ErrorCode, capability_unsatisfied, transport_unreachable, transport_auth_failed,
}
use styrn.Transport.Address.{is_ipv6}
use styrn.Transport.HostKey.{PinnedHostKey, TransportError, authentication}

-- `str::strip_suffix` of one character.
unfoldable pub strip_last : ℕ → List ℕ → Option (List ℕ)
strip_last d [] = none
strip_last d (c ∷ []) = if c == d then some [] else none
strip_last d (c ∷ e ∷ s) = elim (strip_last d (e ∷ s)) [
  | none ↦ none
  | some inner ↦ some (c ∷ inner)
]

-- The text between brackets.
abbrev pub bracketed : List ℕ → Option (List ℕ)
bracketed [] = none
bracketed (c ∷ s) = if c == b'[' then strip_last b']' s else none

abbrev pub is_name_char : ℕ → Bool
is_name_char c = is_alphanumeric c || c == b'.' || c == b'-' || c == b'_'

abbrev pub begins_with_hyphen : List ℕ → Bool
begins_with_hyphen [] = false
begins_with_hyphen (c ∷ s) = c == b'-'

unfoldable pub validate_host : String → Result TransportError (Unit {0})
unfolding strip_last is_ipv6
validate_host host =
    if empty_text host || ltb 255 (len host) || begins_with_hyphen (codes host)
    then err authentication
    else (elim (bracketed (codes host)) [
      | some inner ↦ if is_ipv6 inner then ok tt else err authentication
      | none ↦ if all is_name_char (codes host) then ok tt else err authentication
    ])

unfoldable pub validate_user : String → Result TransportError (Unit {0})
validate_user user =
    if not (empty_text user)
      && leb (len user) 255
      && not (begins_with_hyphen (codes user))
      && all is_name_char (codes user)
    then ok tt
    else err authentication

unfoldable pub validate_ssh_destination : String → String → ℕ → Result TransportError (Unit {0})
unfolding validate_host validate_user
validate_ssh_destination host user port = do
  validate_host host
  validate_user user
  refuse_if (port == 0) authentication

abbrev pub is_absolute : List ℕ → Bool
is_absolute [] = false
is_absolute (c ∷ s) = c == b'/'

unfoldable pub validate_transport_path : Option String → Result TransportError String
validate_transport_path path = do
  value ← ok_or path authentication
  refuse_if (not (is_absolute (codes value)) || empty_text value || has_control value)
      authentication
  ok value

pub record RpcTarget : Type 0 where
  pub host : String
  pub user : String
  pub port : ℕ
  pub identity : Option String
  pub host_key : PinnedHostKey

unfoldable pub RpcTarget_new :
    String → String → ℕ → Option String → PinnedHostKey → Result TransportError RpcTarget
unfolding validate_host validate_user validate_transport_path
RpcTarget_new host user port identity host_key = do
  validate_host host
  validate_user user
  _ ← validate_transport_path identity
  refuse_if (port == 0) authentication
  ok (record { host = host; user = user; port = port; identity = identity; host_key = host_key })

unfoldable pub ssh_keyscan_arguments : String → ℕ → Result TransportError (List String)
unfolding validate_host decimal
ssh_keyscan_arguments host port = do
  validate_host host
  refuse_if (port == 0) authentication
  ok ("-T" ∷ "10" ∷ "-p" ∷ decimal port ∷ "-t" ∷ "ed25519,ecdsa,rsa" ∷ "--" ∷ host ∷ [])

abbrev pub destination : RpcTarget → String
destination target = String.◌++◌ target.user (String.◌++◌ "@" target.host)

-- The arguments of `ssh`, from the two paths.
abbrev pub ssh_argument_list : RpcTarget → String → String → List String
ssh_argument_list target identity known_hosts =
    "-T"
    ∷ "-oBatchMode=yes"
    ∷ "-oIdentitiesOnly=yes"
    ∷ "-oStrictHostKeyChecking=yes"
    ∷ String.◌++◌ "-oUserKnownHostsFile=" known_hosts
    ∷ "-oGlobalKnownHostsFile=none"
    ∷ "-oCheckHostIP=no"
    ∷ "-oConnectTimeout=10"
    ∷ "-oConnectionAttempts=1"
    ∷ "-i"
    ∷ identity
    ∷ "-p"
    ∷ decimal target.port
    ∷ "--"
    ∷ destination target
    ∷ "styrn rpc serve --stdio"
    ∷ []

unfoldable pub ssh_arguments : RpcTarget → Option String → Result TransportError (List String)
unfolding validate_transport_path decimal
ssh_arguments target known_hosts_path = do
  identity ← validate_transport_path target.identity
  known_hosts ← validate_transport_path known_hosts_path
  ok (ssh_argument_list target identity known_hosts)

abbrev pub known_hosts_destination : String → ℕ → List ℕ
known_hosts_destination host port =
    if port == 22 then codes host else b'[' ∷ (codes host ++ (codes "]:" ++ codes (decimal port)))

unfoldable pub known_hosts_line : PinnedHostKey → String → ℕ → Result TransportError (List ℕ)
unfolding validate_host decimal
known_hosts_line key host port = do
  validate_host host
  refuse_if (port == 0) authentication
  ok (
      known_hosts_destination host port
      ++ (codes " " ++ (key.algorithm ++ (codes " " ++ (key.base64 ++ codes "\n")))))
