-- ===== src/Firewall/Tables.antt =====
-- The tables IP_PROTOCOL_NUMBERS and VALID_ICMP_RANGES of
-- networking_nsxv3/plugins/ml2/drivers/nsxv3/agent/nsxv3_facada.py.
use networking_nsx_t.Base.{
  ℕ, zero, suc, String, List, [], ◌∷◌, ◌++◌, Option, none, some, ◌==◌, if◌then◌else◌,
}
use networking_nsx_t.Base.Dict.{Dict}

unfoldable pub ip_protocol_numbers : Dict ℕ
ip_protocol_numbers =
    ("hopopt", 0)
    ∷ ("icmp", 1)
    ∷ ("igmp", 2)
    ∷ ("ggp", 3)
    ∷ ("ip-in-ip", 4)
    ∷ ("st", 5)
    ∷ ("tcp", 6)
    ∷ ("cbt", 7)
    ∷ ("egp", 8)
    ∷ ("igp", 9)
    ∷ ("bbn-rcc-mon", 10)
    ∷ ("nvp-ii", 11)
    ∷ ("pup", 12)
    ∷ ("argus", 13)
    ∷ ("emcon", 14)
    ∷ ("xnet", 15)
    ∷ ("chaos", 16)
    ∷ ("udp", 17)
    ∷ ("mux", 18)
    ∷ ("dcn-meas", 19)
    ∷ ("hmp", 20)
    ∷ ("prm", 21)
    ∷ ("xns-idp", 22)
    ∷ ("trunk-1", 23)
    ∷ ("trunk-2", 24)
    ∷ ("leaf-1", 25)
    ∷ ("leaf-2", 26)
    ∷ ("rdp", 27)
    ∷ ("irtp", 28)
    ∷ ("iso-tp4", 29)
    ∷ ("netblt", 30)
    ∷ ("mfe-nsp", 31)
    ∷ ("merit-inp", 32)
    ∷ ("dccp", 33)
    ∷ ("3pc", 34)
    ∷ ("idpr", 35)
    ∷ ("xtp", 36)
    ∷ ("ddp", 37)
    ∷ ("idpr-cmtp", 38)
    ∷ ("tp++", 39)
    ∷ ("il", 40)
    ∷ ("ipv6", 41)
    ∷ ("sdrp", 42)
    ∷ ("ipv6-route", 43)
    ∷ ("ipv6-frag", 44)
    ∷ ("idrp", 45)
    ∷ ("rsvp", 46)
    ∷ ("gres", 47)
    ∷ ("dsr", 48)
    ∷ ("bna", 49)
    ∷ ("esp", 50)
    ∷ ("ah", 51)
    ∷ ("i-nlsp", 52)
    ∷ ("swipe", 53)
    ∷ ("narp", 54)
    ∷ ("mobile", 55)
    ∷ ("tlsp", 56)
    ∷ ("skip", 57)
    ∷ ("ipv6-icmp", 58)
    ∷ ("ipv6-nonxt", 59)
    ∷ ("ipv6-opts", 60)
    ∷ ("cftp", 62)
    ∷ ("sat-expak", 64)
    ∷ ("kryptolan", 65)
    ∷ ("rvd", 66)
    ∷ ("ippc", 67)
    ∷ ("sat-mon", 69)
    ∷ ("visa", 70)
    ∷ ("ipcu", 71)
    ∷ ("cpnx", 72)
    ∷ ("cphb", 73)
    ∷ ("wsn", 74)
    ∷ ("pvp", 75)
    ∷ ("br-sat-mon", 76)
    ∷ ("sun-nd", 77)
    ∷ ("wb-mon", 78)
    ∷ ("wb-expak", 79)
    ∷ ("iso-ip", 80)
    ∷ ("vmtp", 81)
    ∷ ("secure-vmtp", 82)
    ∷ ("vines", 83)
    ∷ ("ttp", 84)
    ∷ ("iptm", 84)
    ∷ ("nsfnet-igp", 85)
    ∷ ("dgp", 86)
    ∷ ("tcf", 87)
    ∷ ("eigrp", 88)
    ∷ ("ospf", 89)
    ∷ ("sprite-rpc", 90)
    ∷ ("larp", 91)
    ∷ ("mtp", 92)
    ∷ ("ax.25", 93)
    ∷ ("os", 94)
    ∷ ("micp", 95)
    ∷ ("scc-sp", 96)
    ∷ ("etherip", 97)
    ∷ ("encap", 98)
    ∷ ("gmtp", 100)
    ∷ ("ifmp", 101)
    ∷ ("pnni", 102)
    ∷ ("pim", 103)
    ∷ ("aris", 104)
    ∷ ("scps", 105)
    ∷ ("qnx", 106)
    ∷ ("a/n", 107)
    ∷ ("ipcomp", 108)
    ∷ ("snp", 109)
    ∷ ("compaq-peer", 110)
    ∷ ("ipx-in-ip", 111)
    ∷ ("vrrp", 112)
    ∷ ("pgm", 113)
    ∷ ("l2tp", 115)
    ∷ ("ddx", 116)
    ∷ ("iatp", 117)
    ∷ ("stp", 118)
    ∷ ("srp", 119)
    ∷ ("uti", 120)
    ∷ ("smp", 121)
    ∷ ("sm", 122)
    ∷ ("ptp", 123)
    ∷ ("fire", 125)
    ∷ ("crtp", 126)
    ∷ ("crudp", 127)
    ∷ ("sscopmce", 128)
    ∷ ("iplt", 129)
    ∷ ("sps", 130)
    ∷ ("pipe", 131)
    ∷ ("sctp", 132)
    ∷ ("fc", 133)
    ∷ ("rsvp-e2e-ignore", 134)
    ∷ ("mobility header", 135)
    ∷ ("udplite", 136)
    ∷ ("mpls-in-ip", 137)
    ∷ ("manet", 138)
    ∷ ("hip", 139)
    ∷ ("shim6", 140)
    ∷ ("wesp", 141)
    ∷ ("rohc", 142)
    ∷ []

-- `range(n)`
abbrev pub range : ℕ → List ℕ
range zero = []
range (suc n) = range n ++ n ∷ []

-- The codes that each ICMP type admits.
abbrev pub IcmpRanges : Type 0
IcmpRanges = List (ℕ × List ℕ)

unfoldable pub valid_icmp_ranges_ipv4 : IcmpRanges
valid_icmp_ranges_ipv4 =
    (0, 0 ∷ [])
    ∷ (3, range 16)
    ∷ (4, 0 ∷ [])
    ∷ (5, 0 ∷ 1 ∷ 2 ∷ 3 ∷ [])
    ∷ (6, 0 ∷ [])
    ∷ (8, 0 ∷ [])
    ∷ (9, 0 ∷ 16 ∷ [])
    ∷ (10, 0 ∷ 1 ∷ [])
    ∷ (11, 0 ∷ 1 ∷ 2 ∷ [])
    ∷ (12, 0 ∷ 1 ∷ 2 ∷ [])
    ∷ (13, 0 ∷ [])
    ∷ (14, 0 ∷ [])
    ∷ (40, range 6)
    ∷ (42, 0 ∷ [])
    ∷ (43, range 5)
    ∷ []

unfoldable pub valid_icmp_ranges_ipv6 : IcmpRanges
valid_icmp_ranges_ipv6 =
    (1, range 8)
    ∷ (2, 0 ∷ [])
    ∷ (3, 0 ∷ 1 ∷ [])
    ∷ (4, range 5)
    ∷ (128, 0 ∷ [])
    ∷ (129, 0 ∷ [])
    ∷ (130, 0 ∷ [])
    ∷ (131, 0 ∷ [])
    ∷ (132, 0 ∷ [])
    ∷ (133, 0 ∷ [])
    ∷ (134, 0 ∷ [])
    ∷ (135, 0 ∷ [])
    ∷ (136, 0 ∷ [])
    ∷ (137, 0 ∷ [])
    ∷ (138, 0 ∷ 1 ∷ 255 ∷ [])
    ∷ (139, 0 ∷ 1 ∷ 2 ∷ [])
    ∷ (140, 0 ∷ 1 ∷ 2 ∷ [])
    ∷ (141, 0 ∷ [])
    ∷ (142, 0 ∷ [])
    ∷ (144, 0 ∷ [])
    ∷ (145, 0 ∷ [])
    ∷ (146, 0 ∷ [])
    ∷ (147, 0 ∷ [])
    ∷ (157, range 5)
    ∷ (158, range 5)
    ∷ (160, 0 ∷ [])
    ∷ (161, range 5)
    ∷ []

-- `VALID_ICMP_RANGES[ethertype]`; none is KeyError
unfoldable pub valid_icmp_ranges : String → Option IcmpRanges
unfolding valid_icmp_ranges_ipv4 valid_icmp_ranges_ipv6
valid_icmp_ranges ethertype =
    if ethertype == "IPv4"
    then some valid_icmp_ranges_ipv4
    else if ethertype == "IPv6"
    then some valid_icmp_ranges_ipv6
    else none
