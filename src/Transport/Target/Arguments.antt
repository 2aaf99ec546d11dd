-- ===== src/Transport/Target/Arguments.antt =====
-- The arguments that src/transport/ssh.rs gives to OpenSSH.
use Prim.Native.String
use styrn.Common.{
  ℕ, ◌==◌, ◌≡◌, ◌≢◌, refl, sym, ap, ◌∙◌, Bool, true, false, ◌||◌, Option, none, some, String, List,
  [], ◌∷◌, ◌++◌, all, Result, ok, ◌>>=◌, ◌>>◌, >>=-eq-ok, refuse_if-eq-ok, >>-eq-ok, refuse_if,
  arith,
}
use styrn.Common.Text.{codes, has_control}
use styrn.Common.Decimal.{decimal}
use styrn.Common.Matching.{codes-append}
use styrn.Common.Splitting.{all-append}
use styrn.Transport.HostKey.{PinnedHostKey, TransportError, authentication}
use styrn.Transport.Target.{
  is_name_char, begins_with_hyphen, validate_host, validate_user, validate_transport_path,
  is_absolute, RpcTarget, RpcTarget_new, ssh_argument_list, ssh_arguments,
}
use styrn.Transport.Target.Laws.{
  is_host_char, IsPlainHost, all_weaken, name-is_host, validate_host-IsPlainHost, validate_user_iff,
}

-- An absolute path without control characters.
abbrev pub IsPlainPath : Option String → String → Type 0
IsPlainPath path value =
    (path ≡ some value) × (is_absolute (codes value) ≡ true) × (has_control value ≡ false)

validate_transport_path-IsPlainPath :
    (path : Option String) (value : String)
    → validate_transport_path path ≡ ok value
    → IsPlainPath path value
unfolding validate_transport_path
validate_transport_path-IsPlainPath none value h = absurd (ground arith)
validate_transport_path-IsPlainPath (some text) value h = (ground arith, ground arith, ground arith)

-- A character of a destination: of a user, the sign between, or of a host.
abbrev pub is_destination_char : ℕ → Bool
is_destination_char c = is_host_char c || c == b'@'

either : (a b : Bool) → a ≡ true → (a || b) ≡ true
either a b h = ground arith

host-is_destination : (c : ℕ) → is_host_char c ≡ true → is_destination_char c ≡ true
host-is_destination c h = either (is_host_char c) (c == b'@') h

RpcTarget_new-eq :
    (host user : String) (port : ℕ) (identity : Option String) (host_key : PinnedHostKey)
    → RpcTarget_new host user port identity host_key ≡ (
        validate_host host
        >> (validate_user user
            >> (validate_transport_path identity >>= λ path.
                refuse_if (port == 0) authentication
                >> ok (record {
                  host = host;
                  user = user;
                  port = port;
                  identity = identity;
                  host_key = host_key;
                }))))
unfolding RpcTarget_new
RpcTarget_new-eq host user port identity host_key = refl

abbrev made : RpcTarget → Result TransportError RpcTarget
made target = ok target

made-injective : {a b : RpcTarget} → made a ≡ made b → a ≡ b
made-injective e = cc

-- A target has a plain host, a user that is accepted, and the given port, which is not 0.
pub RpcTarget_new-IsPlain :
    (host user : String) (port : ℕ) (identity : Option String) (host_key : PinnedHostKey)
    (target : RpcTarget)
    → RpcTarget_new host user port identity host_key ≡ ok target
    → IsPlainHost host
      × (validate_user user ≡ ok tt)
      × (port ≢ 0)
      × (target ≡ record {
        host = host;
        user = user;
        port = port;
        identity = identity;
        host_key = host_key;
      })
RpcTarget_new-IsPlain host user port identity host_key target h =
    let (reached, h1) =
      >>-eq-ok (validate_host host) _
        (sym (RpcTarget_new-eq host user port identity host_key) ∙ h) in
    let (known, h2) = >>-eq-ok (validate_user user) _ h1 in
    let (path, _, h3) = >>=-eq-ok (validate_transport_path identity) _ h2 in
    let (nonzero, last) = refuse_if-eq-ok (port == 0) authentication _ h3 in
    (
      validate_host-IsPlainHost host reached,
      known,
      λ e. absurd (ground arith),
      sym (made-injective last),
    )

destination-all :
    (user host : String)
    → all is_name_char (codes user) ≡ true
    → all is_host_char (codes host) ≡ true
    → all is_destination_char (codes (String.◌++◌ user (String.◌++◌ "@" host))) ≡ true
destination-all user host named plain =
    let of_user =
      all_weaken is_name_char is_destination_char (codes user)
        (λ c h. host-is_destination c (name-is_host c h)) named in
    let of_host =
      all_weaken is_host_char is_destination_char (codes host) host-is_destination plain in
    rw
      (
        codes-append user (String.◌++◌ "@" host),
        codes-append "@" host,
        all-append is_destination_char (codes user) (b'@' ∷ codes host),
        of_user,
        of_host,
      )
      refl

begins-append :
    (s t : List ℕ)
    → begins_with_hyphen s ≡ false
    → begins_with_hyphen t ≡ false
    → begins_with_hyphen (s ++ t) ≡ false
begins-append [] t h g = g
begins-append (c ∷ s) t h g = h

destination-no_hyphen :
    (user host : String)
    → begins_with_hyphen (codes user) ≡ false
    → begins_with_hyphen (codes (String.◌++◌ user (String.◌++◌ "@" host))) ≡ false
destination-no_hyphen user host h =
    rw (codes-append user (String.◌++◌ "@" host), codes-append "@" host)
      (begins-append (codes user) (b'@' ∷ codes host) h refl)

abbrev given : List String → Result TransportError (List String)
given args = ok args

given-injective : {a b : List String} → given a ≡ given b → a ≡ b
given-injective e = cc

ssh_arguments-eq :
    (target : RpcTarget) (known_hosts_path : Option String)
    → ssh_arguments target known_hosts_path ≡ (
        validate_transport_path target.identity >>= λ identity.
        validate_transport_path known_hosts_path >>= λ known_hosts.
        ok (ssh_argument_list target identity known_hosts))
unfolding ssh_arguments
ssh_arguments-eq target known_hosts_path = refl

absolute-no_hyphen : (s : List ℕ) → is_absolute s ≡ true → begins_with_hyphen s ≡ false
absolute-no_hyphen [] h = refl
absolute-no_hyphen (c ∷ s) h = ground arith

-- Whatever host, user, port and paths a target is made of, OpenSSH gets exactly these arguments: the
-- fixed options, which ask for strict checking of the host's key against the one file of known hosts;
-- the identity, an absolute path; the port, which is not 0; and behind `--` the user at the host, which
-- does not begin with a hyphen and holds only letters, digits, `.`, `-`, `_`, `@`, `:` and brackets, and
-- the command of the worker.
pub ssh_arguments_safe :
    (host user : String) (port : ℕ) (identity_path known_hosts_path : Option String)
    (host_key : PinnedHostKey) (target : RpcTarget) (args : List String)
    → RpcTarget_new host user port identity_path host_key ≡ ok target
    → ssh_arguments target known_hosts_path ≡ ok args
    → (identity : String) × (known_hosts : String) × (reached : String) × (args
        ≡ "-T"
          ∷ "-oBatchMode=yes"
          ∷ "-oIdentitiesOnly=yes"
          ∷ "-oStrictHostKeyChecking=yes"
          ∷ String.◌++◌ "-oUserKnownHostsFile=" known_hosts
          ∷ "-oGlobalKnownHostsFile=none"
          ∷ "-oCheckHostIP=no"
          ∷ "-oConnectTimeout=10"
          ∷ "-oConnectionAttempts=1"
          ∷ "-i"
          ∷ identity
          ∷ "-p"
          ∷ decimal port
          ∷ "--"
          ∷ reached
          ∷ "styrn rpc serve --stdio"
          ∷ [])
      × (reached ≡ String.◌++◌ user (String.◌++◌ "@" host))
      × (port ≢ 0)
      × IsPlainPath identity_path identity
      × IsPlainPath known_hosts_path known_hosts
      × (begins_with_hyphen (codes identity) ≡ false)
      × (begins_with_hyphen (codes reached) ≡ false)
      × (all is_destination_char (codes reached) ≡ true)
ssh_arguments_safe host user port identity_path known_hosts_path host_key target args h g =
    let ((written, _, plain, hosts), known, nonzero, same) =
      RpcTarget_new-IsPlain host user port identity_path host_key target h in
    let (user_written, _, user_plain, names) = (validate_user_iff user).0 known in
    let (identity, e, g1) =
      >>=-eq-ok (validate_transport_path target.identity) _
        (sym (ssh_arguments-eq target known_hosts_path) ∙ g) in
    let (known_hosts, f, g2) = >>=-eq-ok (validate_transport_path known_hosts_path) _ g1 in
    let path = validate_transport_path-IsPlainPath target.identity identity e in
    let own : target.identity ≡ identity_path = ap (λ (t : RpcTarget). t.identity) same in
    let listed : ssh_argument_list target identity known_hosts
        ≡ ssh_argument_list
            (record {
              host = host;
              user = user;
              port = port;
              identity = identity_path;
              host_key = host_key;
            })
            identity known_hosts =
      ap (λ (t : RpcTarget). ssh_argument_list t identity known_hosts) same in
    (
      identity,
      known_hosts,
      String.◌++◌ user (String.◌++◌ "@" host),
      sym (given-injective g2) ∙ listed,
      refl,
      nonzero,
      (sym own ∙ path.0, path.1, path.2),
      validate_transport_path-IsPlainPath known_hosts_path known_hosts f,
      absolute-no_hyphen (codes identity) path.1,
      destination-no_hyphen user host user_plain,
      destination-all user host names hosts,
    )
