-- ===== src/Docker/KeyValues/Hosts.antt =====
-- Host entries, printed and read back.
use ui_for_docker.Prelude.{
  ◌≡◌, refl, true, some, List, [], ◌∷◌, ◌++◌, arith, Text, Lacks, All, split_at, split_at-append,
  split_at-lacks,
}
use ui_for_docker.Docker.KeyValues.{
  is_filled, HostEntry, host_entry, cons_some, translate_hosts_entries_to_hostname_ip,
  translate_hostname_ip_to_hosts_entries,
}

-- An address and a host name that are filled in and hold no space.
pub record IsPlain (entry : HostEntry) : Type 0 where
  pub ip_filled : is_filled entry.ip ≡ true
  pub hostname_filled : is_filled entry.hostname ≡ true
  pub ip_lacks_space : Lacks b' ' entry.ip
  pub hostname_lacks_space : Lacks b' ' entry.hostname

host_entry-parts :
    (ip hostname : Text)
    → is_filled ip ≡ true
    → host_entry (ip, hostname ∷ []) ≡ some (record { hostname = hostname; ip = ip })
unfolding host_entry
host_entry-parts [] hostname h = cc
host_entry-parts (c ∷ ip) hostname h = refl

host_entry-print :
    (entry : HostEntry)
    → IsPlain entry
    → host_entry (split_at b' ' (entry.ip ++ b' ' ∷ entry.hostname)) ≡ some entry
host_entry-print entry plain =
    rw (split_at-append b' ' entry.ip entry.hostname plain.ip_lacks_space) (
      rw (split_at-lacks b' ' entry.hostname plain.hostname_lacks_space)
        (host_entry-parts entry.ip entry.hostname plain.ip_filled))

-- Host entries that are filled in and hold no space are read back from the texts that are sent.
pub translate_hosts_entries-print :
    (entries : List HostEntry)
    → All IsPlain entries
    → translate_hosts_entries_to_hostname_ip (translate_hostname_ip_to_hosts_entries entries)
      ≡ entries
unfolding translate_hosts_entries_to_hostname_ip translate_hostname_ip_to_hosts_entries cons_some
translate_hosts_entries-print [] h = refl
translate_hosts_entries-print (entry ∷ entries) (plain, h) = ground (
  arith,
  plain.ip_filled,
  plain.hostname_filled,
  host_entry-print entry plain,
  translate_hosts_entries-print entries h,
)
