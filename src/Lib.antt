-- ===== src/Lib.antt =====
-- Verification library of sub-preprocessor, a service that gathers proxy subscriptions, filters
-- their nodes, probes them and publishes the ones that answer.
--
-- How the parts interact. The preprocessor fetches each source, reads it line by line
-- (internal/ioutil), parses the lines as nodes (internal/subscription) and keeps the nodes whose
-- addresses pass the country rule (internal/filter), the address lists (internal/cidrset) and the
-- blocklist of hosts (internal/geoblock). The stable worker (internal/stable) merges what the sources
-- kept under labels of its own, probes the entries except those in the dead set, selects the ones
-- within the limits, passes them through the node filters, which feed the blocklist, and publishes a
-- line for each. internal/rewrite writes the tagged name of a node.
--
-- Files and sources. Most definitions carry the name of the function they model, in snake case; a
-- method loses its receiver, and a loop is a function of its own.
--   Base           lists, options, bytes, decimals, sorting, binary search, maps, expiring maps
--   Netip          the part of Go's net/netip that is used
--   Ioutil         internal/ioutil/ioutil.go: the line iterator
--   Cidrset        internal/cidrset/cidrset.go: address lists as sets of ranges
--   Filter         internal/filter/filter.go: country sets as eleven words of 64 bits
--   Geofeed        internal/geofeed/lookup.go: the country of an address, IPv6 ones as two words
--   Geoblock       internal/geoblock/store.go: the blocklist, a cache before a table
--   Ghfind         internal/ghfind: Cover is cover.go, the greedy choice of sources
--   Preprocess     internal/preprocess: Filters is filters.go, Nodes is FilterNodes of processor.go with
--                  the loop over the nodes of a body, Refresh the background reload of its databases,
--                  Chain the order in which the country databases are asked
--   Rewrite        internal/rewrite/rewrite.go: known tags and the written name
--   Subscription   internal/subscription: Parser and Endpoint are subscription.go with mieru.go and
--                  ss.go, Query is query.go, Links is the interface to the decoders that stable uses
--   Stable         internal/stable. Label is label.go, Merge and Arena are merge.go, Select and
--                  Publish are select.go, Gate is nodefilter.go with the breaker of prober.go
--                  (Gate/Speed the bandwidth filter, Gate/Chain the filters in a row), Dead is
--                  deadset.go. Probe is prober.go (Probe/Precheck the dials before the probe,
--                  Probe/Binding the addresses a probe is bound to), Probe/Api the checks of
--                  prober_api.go, prober_bandwidth.go and the files of the services, Probe/Trace
--                  prober_trace.go, Best their choice among the ports of a node. Cycle is checker.go
--                  (Cycle/Sources the fetch, Cycle/Death the dead cache, Cycle/Accounts the counts of
--                  the report, Cycle/Egress the filters and the trace, Cycle/State what a cycle reads
--                  and writes, Cycle/Once the whole cycle, Cycle/System the loop with its reloads)
-- Cycle/Once composes the others as RunOnce does: it merges what the sources answered (Merge), leaves
-- out the dead (Dead), selects (Select), runs the filters (Gate/Chain), writes to the blocklist
-- (Geoblock) and publishes (Publish). State is passed explicitly: a method that changes its receiver
-- returns it. An error is none, or a Bool beside the state where the source changes state and then
-- fails.
--
-- Numbers. Lengths, counts, ports and times are natural numbers. The arithmetic on addresses of 32
-- bits keeps its wrap-around or the test that avoids it. Times are nanoseconds; the sum of a time and
-- a TTL is not wrapped, which holds of every date before the year 2262. An int that the source keeps
-- non-negative is a natural number.
--
-- Loops are structural recursion or have fuel: the line iterator has the length of the body plus one,
-- and each round takes at least a byte; the scan of tags has the length of the name plus one, and each round
-- but the last takes a tag; a numeral has at most as many digits as its number plus one.
--
-- Concurrency. Workers that share a lock are a list of what they did, in the order in which they took
-- it; reloads that land while a cycle runs are steps of Cycle/System between its start and its end.
-- What the world answers in a cycle is one argument, Env of Cycle/State, and what it answers while a
-- source is filtered is Surroundings of Preprocess/Nodes, which may change from node to node.
--
-- Parameters. strings.ToLower on text that is not ASCII, base64, the decoders of vmess and ssr links
-- and the rewriters of names inside their payloads, the annotator, the geofeed lookup, fetched bodies,
-- outcomes of checks through proxies, errors of the database driver and the random jitter are
-- arguments, and so is the text of an address. TrimSpace trims the ASCII white space.
--
-- Not modelled: locks (each operation is one step), logging and metrics, HTTP, DNS and SQLite
-- themselves, the configuration, the crawlers, the search on GitHub but for its choice of sources, the
-- ASN database, the cache of the resolver and the readers of geofeed sources. Of the worker: the
-- opening and closing of proxies, the writes into the mappings that mihomo parses, the durations of
-- the phases, the controller and the snapshot file.
pub mod Base
pub mod Ioutil
pub mod Netip
pub mod Cidrset
pub mod Filter
pub mod Geoblock
pub mod Geofeed
pub mod Subscription
pub mod Rewrite
pub mod Stable
pub mod Preprocess
pub mod Ghfind
