-- ===== src/Lib.antt =====
-- Verification of dnsdist-edge.
--
-- The repository distributes national block lists to dnsdist edges. tools/rpz-master follows an upstream
-- RPZ master by AXFR and IXFR, keeps the policy domains in a raw file, compiles them to a CDB and serves
-- both the zone and the CDB on. The panel (panel/) is the web console of an edge: it guards its login, lets
-- edges download the CDB, counts blocked queries, keeps a local block list and the profiles of nodes, and
-- is master or edge of a cluster of nodes.
--
-- How the parts interact. An answer of the upstream comes as envelopes of records (Rpz.Sync); the
-- reader makes a delta of it (Rpz.Transfer, with the owners of Rpz.Domain and the serials of Rpz.Serial);
-- the delta is applied to the raw file (Rpz.Delta), which is compiled and published (Rpz.Publication)
-- with the state (Rpz.App); and the server makes envelopes of the raw file and the stored deltas again
-- (Rpz.Server). A panel that is a master knows its edges (Panel.Cluster or Panel.SqlStore) and their profiles
-- (Panel.SmartDist) and answers them (Panel.Api); an edge registers, sends heartbeats and takes over the profile it
-- is told of (Panel.Agent), for which it makes Lua files (Panel.Lua) and puts them in place (Panel.Apply). Block
-- lists become a CDB (Panel.Builder, Panel.TrustBuilder, GenCdb) that the master publishes (Panel.Publisher).
--
-- Which file models what:
--   Rpz/Serial    serialGreater of tools/rpz-master/slave_client.go
--   Rpz/Types     resource records, and Delta and State of tools/rpz-master/config.go
--   Rpz/Domain    normalizePolicyDomain and policyOwners of tools/rpz-master/slave_client.go
--   Rpz/Transfer  parseTransferRecords of tools/rpz-master/slave_client.go
--   Rpz/Sync      SyncIXFR, streamAXFRFromEnvelopes and transferRequest of tools/rpz-master/slave_client.go
--   Rpz/Delta     ApplyDeltaToFile of tools/rpz-master/slave_client.go
--   Rpz/Server    tools/rpz-master/dns_server.go: ServeDNS, handleAXFR, handleIXFR, transferAuthorized; Wire is
--                 the way of its messages to a slave
--   Rpz/Publication  tools/rpz-master/builder.go: CompileDomainsToCDB, PublishDelta
--   Rpz/App       tools/rpz-master/main.go: Sync, buildCDB, Bootstrap; Start is the start of Serve, with
--                 QueryUpstreamSOA of tools/rpz-master/slave_client.go
--   Rpz/Config    tools/rpz-master/config.go, and NewRPZServerWithMutex of tools/rpz-master/dns_server.go
--   Panel/LoginLimit  panel/login_limit.go
--   Panel/CdbLimit    panel/cdb_ratelimit.go
--   Panel/Dnstap      the DnstapAggregator of panel/dnstap.go
--   Panel/LocalBlock  panel/localblock.go
--   Panel/Profile     the profiles of panel/smartdist_profile.go and parseSmartDistProfile
--   Panel/SmartDist   SmartDistProfileStore of panel/smartdist_profile.go
--   Panel/Cluster     ClusterStore of panel/cluster.go; Listing is ListNodes, Address is clientIP
--   Panel/SqlStore    SQLiteClusterStore of panel/storage.go
--   Panel/Agent       EdgeClusterAgent of panel/cluster.go and panel/smartdist_agent.go; Register is Register
--                     and run, Round a heartbeat of an edge at its master
--   Panel/Api         the handlers of the master for its nodes, of panel/cluster.go and panel/smartdist_profile.go
--   Panel/Apply       panel/smartdist_dnsdist_apply.go
--   Panel/Lua         panel/smartdist_lua.go and panel/smartdist_dnsdist_lua.go
--   Panel/Builder     the lists and keys of panel/builder.go
--   Panel/TrustBuilder  the lists and keys of tools/trust-builder/main.go; Equal compares the two builders
--   Panel/Publisher   names, paths and sources of panel/cdbpublisher.go
--   GenCdb            tools/gen-cdb-go/main.go
--   Prelude, Text, Map  numbers, lists, results, the functions of Go's strings package, and Go's maps
--
-- The model. A text is a list of ASCII bytes. A file is the list of its lines, or none where it does not
-- exist. The operations that touch a disk take the outcomes of their file operations as an argument (the
-- record Io) and return what is then on disk. The source holds a lock over a whole operation, so an
-- operation is one function of the state; RegisterNode takes its lock twice, and Panel.Cluster.Requests
-- lets other operations come between its two parts. What the code takes from github.com/miekg/dns is the
-- parameter Dns, with two documented properties of names as the hypothesis DnsLaws. The digest of a CDB is
-- a parameter too, as are the JSON and address parsers of the panel (the records Codec, Documents and Net),
-- and of the configuration its parsers (Parsers), file paths (Files) and float64 arithmetic (Floats).
-- How dns.Transfer packs and unpacks messages is the parameter Wire, with its documented behaviour on names
-- that need no escape as the hypothesis WireLaws (Rpz.Server.Wire).
-- Messages between an edge and its master arrive as they were sent or not at all. An SQL table is a map
-- from its primary key. The time now and the results of the network are arguments.
--
-- Bounds. Serials are 32-bit and serialGreater keeps the wrap-around of their difference. The loop that
-- reads an IXFR answer has as fuel one round more than there are records; a round takes at least two
-- records off. A decimal number is printed with twenty rounds, for a 64-bit number has at most twenty digits.
--
-- Not modelled: sockets and TSIG signatures (the library's), the decoding of HTTP requests and pages, the
-- Postgres store, the downloads of block lists, the status page, and dnsdist-tproxy.
pub mod Prelude
pub mod Text
pub mod Map
pub mod Rpz
pub mod Panel
pub mod GenCdb
