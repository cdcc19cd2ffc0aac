-- ===== src/Scan/Services.antt =====
-- pyscan/domain/well_known.py and pyscan/domain/top_ports.py: the tables of ports.
use pyscan.Prelude.{
  ℕ, suc, zero, Option, List, [], ◌∷◌, Text, codes, take, Table, lookup, ℤ, pos, negsuc,
  value_error, Result, ok, err,
}

abbrev pub well_known : Table Text
well_known =
    (20, codes "ftp-data")
    ∷ (21, codes "ftp")
    ∷ (22, codes "ssh")
    ∷ (23, codes "telnet")
    ∷ (25, codes "smtp")
    ∷ (53, codes "dns")
    ∷ (67, codes "dhcp")
    ∷ (80, codes "http")
    ∷ (110, codes "pop3")
    ∷ (123, codes "ntp")
    ∷ (143, codes "imap")
    ∷ (161, codes "snmp")
    ∷ (389, codes "ldap")
    ∷ (443, codes "https")
    ∷ (445, codes "smb")
    ∷ (465, codes "smtps")
    ∷ (587, codes "submission")
    ∷ (631, codes "ipp")
    ∷ (993, codes "imaps")
    ∷ (995, codes "pop3s")
    ∷ (1433, codes "mssql")
    ∷ (1883, codes "mqtt")
    ∷ (3306, codes "mysql")
    ∷ (3389, codes "rdp")
    ∷ (5432, codes "postgres")
    ∷ (5672, codes "amqp")
    ∷ (6379, codes "redis")
    ∷ (8080, codes "http-alt")
    ∷ (8443, codes "https-alt")
    ∷ (9200, codes "elasticsearch")
    ∷ (502, codes "modbus")
    ∷ (2404, codes "iec-104")
    ∷ (20000, codes "dnp3")
    ∷ (102, codes "s7comm")
    ∷ []

unfoldable pub service_for : ℕ → Option Text
service_for port = lookup port well_known

abbrev pub top_table : List ℕ
top_table =
    80 ∷ 23 ∷ 443 ∷ 21 ∷ 22 ∷ 25 ∷ 3389 ∷ 110 ∷ 445 ∷ 139 ∷ 143 ∷ 53 ∷ 135 ∷ 3306 ∷ 8080 ∷ 1723
    ∷ 111 ∷ 995 ∷ 993 ∷ 5900 ∷ 1025 ∷ 587 ∷ 8888 ∷ 199 ∷ 1720 ∷ 465 ∷ 548 ∷ 113 ∷ 81 ∷ 6001 ∷ 10000
    ∷ 514 ∷ 5060 ∷ 179 ∷ 1026 ∷ 2000 ∷ 8443 ∷ 8000 ∷ 32768 ∷ 554 ∷ 26 ∷ 1433 ∷ 49152 ∷ 2001 ∷ 515
    ∷ 8008 ∷ 49154 ∷ 1027 ∷ 5666 ∷ 646 ∷ 5000 ∷ 5631 ∷ 631 ∷ 49153 ∷ 8081 ∷ 2049 ∷ 88 ∷ 79 ∷ 5800
    ∷ 106 ∷ 2121 ∷ 1110 ∷ 49155 ∷ 6000 ∷ 513 ∷ 990 ∷ 5357 ∷ 427 ∷ 49156 ∷ 543 ∷ 544 ∷ 5101 ∷ 144 ∷ 7
    ∷ 389 ∷ 8009 ∷ 3128 ∷ 444 ∷ 9999 ∷ 5009 ∷ 7070 ∷ 5190 ∷ 3000 ∷ 5432 ∷ 1900 ∷ 3986 ∷ 13 ∷ 1029
    ∷ 9 ∷ 5051 ∷ 6646 ∷ 49157 ∷ 1028 ∷ 873 ∷ 1755 ∷ 2717 ∷ 4899 ∷ 9100 ∷ 119 ∷ 37 ∷ []

-- The number asked for is an integer of the command line.
unfoldable pub top_ports : ℤ → Result (List ℕ)
top_ports (pos zero) = err value_error
top_ports (pos (suc n)) = ok (take (suc n) top_table)
top_ports (negsuc n) = err value_error
