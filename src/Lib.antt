-- ===== src/Lib.antt =====
-- Keenetic Router Pro, a Home Assistant integration for Keenetic routers: the core of
-- custom_components/keenetic_router_pro.
--
-- The program polls a router. A tick of the coordinator (coordinator.py) plans which tiers to refresh
-- (coordinator_parts/refresh.py), asks for them in one composite request over the authenticated client
-- (api/transport.py, api/auth.py), takes the failures of the fetches into account
-- (coordinator_parts/fetching.py), merges, indexes and enriches the payloads (coordinator_parts/payloads.py,
-- derived.py, enrichment.py, oom.py, with the parsers under api/parsers and the helpers of api/helpers.py and
-- utils.py), and publishes a snapshot that the entities show.
--
-- Which file models what:
--   Prelude       what every file shares: tests, lists, dictionaries with text keys, integers.
--   Value         Python's values as the JSON of the router has them: dicts keep the order of insertion,
--                 floats are binary64 read exactly, `==` crosses int, bool and float as Python's does.
--   Text          the methods of `str` that the program calls.
--   Utils         utils.py: coercions (Coerce), MAC addresses (Mac), records of clients and nodes (Clients),
--                 hosts and node addresses (Addresses), devices and their identifiers (Devices).
--   Fetching      coordinator_parts/fetching.py, and what coordinator.py does with its decision.
--   Refresh       coordinator_parts/refresh.py, and the tick cache of api/transport.py.
--   Oom           coordinator_parts/oom.py.
--   Derived       coordinator_parts/derived.py.
--   Payloads      coordinator_parts/payloads.py.
--   Enrichment    coordinator_parts/enrichment.py.
--   Transport     api/transport.py, api/auth.py and api/errors.py: types (Http), response texts and cookies
--                 of api/helpers.py (Header), both schemes (Auth), a call and its retry (Calls), the composite
--                 request (Batch), and commands of the command line (Commands). A function of the client
--                 takes the client's state and returns its result with the next state. Target is api/target.py.
--   Coordinator   coordinator.py: one-shot requests (Requests), freshness of optional sources (Freshness), the
--                 persisted counter (Counter), arrivals and departures (Presence).
--   Parsers       api/parsers/wan.py (Wan), the totals and the configuration merge of api/parsers/ipsec.py
--                 (Ipsec), the payload shapes of api/helpers.py (Helpers), the records of the log (Log) and the
--                 messages of a result (Messages).
--   Domains       api/domains: the commands (Commands), the client list (Clients), the state of the router and
--                 its latches (System), its firmware (Firmware) and that of a mesh node (NodeUpdate), the mesh
--                 (Mesh), DNS proxies (Dns), uplinks (Wan) and their ping check (PingCheck), ports (Ports), the
--                 counters of interfaces (Counters), tunnels (Vpn) and Wi-Fi networks (Wifi). A method that uses
--                 a latch takes and returns the whole client, a Device.
--   Setup         entity_setup.py: the registry of the entities that a platform has added, fed by
--                 iter_new_items of utils.py.
--   Diagnostics   diagnostics.py: what is stripped from the published data before the dump.
--   Examples      concrete settings, and the properties at concrete inputs.
--
-- A function keeps the name that it has in Python, without a leading underscore. A method that changes an
-- object returns the changed record. An exception that the code catches or raises on purpose is a value. A
-- child module that declares no function of the program holds proofs.
--
-- Libraries and their parameters. `Value.Runtime` is the part of Python that is not defined here: reading a
-- float from text, printing a value, and the rounded subtraction, multiplication and division. `Oom.DateTimes`
-- is the datetime module, which reads back what it prints. `Transport.Site` holds base64, the digests, the
-- redaction of secrets, `repr`, and `answer`: the HTTP library, as what each request gets after the requests sent
-- before it. `Domains.NodeUpdate.Session.Setup` holds the parser of the ipaddress module, and
-- `Domains.Dns.Urls`, `Transport.Target.Parsers` and `Utils.Devices.Urls` urllib.parse. The store of
-- the counter is an argument of each tick.
--
-- Bounds and fuel. Numbers of the program are unbounded, as in Python. Rounding an integer to 53 bits halves
-- it at most 1024 times; an integer below 2^1024 needs 971 halvings, and a larger one is OverflowError. Every
-- other loop is structural.
--
-- Not modelled: task cancellation and the concurrency of fetches (the locks of the code make ticks and
-- handshakes exclusive, so that they are steps in a row here), the time window around the second handshake of
-- a call, redirects that the HTTP library follows on its own (they are part of the answer to a request that
-- allows them), log lines, and letters beyond ASCII in `lower`, `upper` and `int` (in a token of a
-- mesh node they are a parameter). Of the domains pings, the sums of traffic and the IPsec
-- diagnostics, and further the regular expressions of the IPsec status dump, the entry's set-up and forms, the search for release
-- notes, and the entities are left out: the set-up, the forms and the entities are glue to Home Assistant.
mod Prelude
pub mod Value
pub mod Text
pub mod Utils
pub mod Fetching
pub mod Refresh
pub mod Oom
pub mod Derived
pub mod Payloads
pub mod Enrichment
pub mod Transport
pub mod Coordinator
pub mod Parsers
pub mod Domains
pub mod Setup
pub mod Diagnostics
pub mod Examples
