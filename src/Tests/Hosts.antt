-- ===== src/Tests/Hosts.antt =====
-- Examples for the keys of hosts and the arguments of OpenSSH.
use styrn.Common.{
  ℕ, zero, suc, ◌⊎◌, ◌≡◌, ◌≢◌, refl, true, false, none, some, String, List, [], ◌∷◌, ◌++◌, all, ok,
  if◌then◌else◌,
}
use Prim.Native.String
use styrn.Common.Text.{codes}
use styrn.Common.Decimal.{decimal}
use styrn.Common.Chars.{chars_eq}
use styrn.Common.Utf8.{is_utf8}
use styrn.Transport.HostKey.{KeyCrates, PinnedHostKey, lines, ed25519}
use styrn.Transport.HostKey.Wire.{IsSoundKey}
use styrn.Transport.HostKey.Select.{select_scan, verify_scanned_host_key}
use styrn.Transport.HostKey.Select.Laws.{Offers}
use styrn.Transport.HostKey.Select.Order.{Outranks}
use styrn.Transport.HostKey.Select.Choice.{select_scan-best, verify_scanned_host_key-Offers}
use styrn.Transport.Target.{
  RpcTarget, RpcTarget_new, ssh_arguments, ssh_argument_list, begins_with_hyphen,
}
use styrn.Transport.Target.Arguments.{IsPlainPath, is_destination_char, ssh_arguments_safe}

abbrev pub repeated : ℕ → ℕ → List ℕ
repeated zero c = []
repeated (suc n) c = c ∷ repeated n c

-- The wire of a key of 32 bytes, and the text that stands for it.
abbrev pub wire : List ℕ
wire = 0 ∷ 0 ∷ 0 ∷ 11 ∷ (ed25519 ++ (0 ∷ 0 ∷ 0 ∷ 32 ∷ repeated 32 7))

abbrev pub encoded : List ℕ
encoded = codes "AAAAC3"

-- The only text that is read is that of the wire; every digest is written as 43 letters.
abbrev pub crates : KeyCrates
crates = record {
  decode = λ s. if chars_eq s encoded then some wire else none;
  encode = λ w. if chars_eq w wire then encoded else [];
  decode_no_pad = λ s. some (repeated 32 0);
  encode_no_pad = λ w. repeated 43 b'A';
  sha256 = λ w. repeated 32 0;
}

abbrev pub pinned : PinnedHostKey
pinned = record {
  algorithm = ed25519;
  base64 = encoded;
  fingerprint = codes "SHA256:AAAAAAAAAAAAAAAAAAAAAAAAAAAAAAAAAAAAAAAAAAA";
}

abbrev scan : List ℕ
scan = codes "# worker:22 SSH-2.0-OpenSSH_9.6\nworker ssh-ed25519 AAAAC3\nworker ssh-dss AAAAB3\n"

scanned : select_scan crates scan none ≡ ok pinned
unfolding select_scan is_utf8
scanned = refl

select_scan-best_example :
    Offers crates (lines scan) pinned
    × ((other : PinnedHostKey)
        → Offers crates (lines scan) other
        → Outranks pinned.algorithm other.algorithm ⊎ (other ≡ pinned))
select_scan-best_example = select_scan-best crates scan pinned scanned

verified : verify_scanned_host_key crates pinned scan ≡ ok tt
unfolding verify_scanned_host_key is_utf8
verified = refl

verify_scanned_host_key-Offers_example :
    Offers crates (lines scan) pinned
    × IsSoundKey crates pinned
    × ((other : PinnedHostKey)
        → Offers crates (lines scan) other
        → other.fingerprint ≡ pinned.fingerprint
        → other ≡ pinned)
verify_scanned_host_key-Offers_example = verify_scanned_host_key-Offers crates pinned scan verified

abbrev pub target : RpcTarget
target = record {
  host = "worker-1.example";
  user = "styrn";
  port = 2222;
  identity = some "/home/a/.ssh/id";
  host_key = pinned;
}

made : RpcTarget_new "worker-1.example" "styrn" 2222 (some "/home/a/.ssh/id") pinned ≡ ok target
unfolding RpcTarget_new
made = refl

abbrev arguments : List String
arguments = ssh_argument_list target "/home/a/.ssh/id" "/home/a/.styrn/known_hosts"

listed : ssh_arguments target (some "/home/a/.styrn/known_hosts") ≡ ok arguments
unfolding ssh_arguments
listed = refl

ssh_arguments_safe_example :
    (identity : String) × (known_hosts : String) × (reached : String) × (arguments
      ≡ "-T"
        ∷ "-oBatchMode=yes"
        ∷ "-oIdentitiesOnly=yes"
        ∷ "-oStrictHostKeyChecking=yes"
        ∷ String.◌++◌ "-oUserKnownHostsFile=" known_hosts
        ∷ "-oGlobalKnownHostsFile=none"
        ∷ "-oCheckHostIP=no"
        ∷ "-oConnectTimeout=10"
        ∷ "-oConnectionAttempts=1"
        ∷ "-i"
        ∷ identity
        ∷ "-p"
        ∷ decimal 2222
        ∷ "--"
        ∷ reached
        ∷ "styrn rpc serve --stdio"
        ∷ [])
    × (reached ≡ String.◌++◌ "styrn" (String.◌++◌ "@" "worker-1.example"))
    × (◌≢◌ {A = ℕ} 2222 0)
    × IsPlainPath (some "/home/a/.ssh/id") identity
    × IsPlainPath (some "/home/a/.styrn/known_hosts") known_hosts
    × (begins_with_hyphen (codes identity) ≡ false)
    × (begins_with_hyphen (codes reached) ≡ false)
    × (all is_destination_char (codes reached) ≡ true)
ssh_arguments_safe_example =
    ssh_arguments_safe "worker-1.example" "styrn" 2222 (some "/home/a/.ssh/id")
      (some "/home/a/.styrn/known_hosts") pinned target arguments made listed
