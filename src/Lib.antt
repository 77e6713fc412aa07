-- ===== src/Lib.antt =====
-- The OpenStack networking driver for VMware NSX-T (networking-nsx-t), modelled and verified.
--
-- The program has a mechanism driver in the Neutron server and an agent for each NSX-T manager.
-- The driver (networking_nsxv3/plugins/ml2/drivers/nsxv3/driver.py) binds ports to segments and
-- asks the agent for the switch of a segment. The agent (agent/nsxv3_agent.py) compares what the
-- Neutron database has with what NSX-T has, queues the objects that differ by their priority
-- (networking_nsxv3/common/synchronization.py), and writes them by the facada
-- (agent/nsxv3_facada.py), whose requests go through the client (agent/nsxv3_client.py) with its
-- retry policy and its rate limiter. The names below are those of the source, and a path that
-- starts with agent/ is one below networking_nsxv3/plugins/ml2/drivers/nsxv3/.
--
-- The files, by the part of the program that they model:
--   Base              what the modules share: Boolean tests, lists over the native numbers, texts,
--                     dicts as association lists, exceptions, results and stateful methods.
--   Firewall          NSXv3Facada.get_security_group_rule_spec with IP_PROTOCOL_NUMBERS and
--                     VALID_ICMP_RANGES. Spec is the method, cut at its statements, Tables the
--                     tables, Model the SDK objects; Parts, Dropped, Placement and Services are
--                     about the target and the services of a rule.
--   SecurityGroups    the loop of security_group_rule_updated over Neutron's rules (the root
--                     module), update_security_group_rules (Sections), get_firewall_rule of
--                     agent/nsxv3_utils.py (Bodies), and the other operations and handlers of a
--                     group (Groups). RuleUpdate is security_group_rule_updated as a whole. Changes,
--                     Update, Handlers and Converging are about them.
--   Synchronization   Scheduler, the rate limiter, and Runner, the job queues. Queue is the
--                     interface of eventlet's priority queues that Runner uses, and ListQueue fills
--                     it by a list.
--   Revisions         the *_revision_tuples queries of networking_nsxv3/db/db.py, and get_revisions
--                     of the agent, which pages through one of them.
--   Inventory         get_revisions of the facada, which pages through a search, _sync_get_content
--                     of the agent, and the calls that sync_inventory plans (Sync).
--   Client            connection_retry_policy and retry_until_result (Policy), _get_query (Queries),
--                     and get, get_by_attr, create, update and delete (Operations); Store and
--                     Deleting are about a server that keeps a list of objects.
--                     Session adds login, _post, _delete, _query, list and batch, and Login is
--                     about login.
--   Facada            setup of the facada, the attributes that it sets, get_port, and the switch of
--                     a segment (Switches); Unset is about port_update without setup.
--   Ports             port_update and port_delete of the facada (Facada), and port_update,
--                     port_delete, sync_port and get_network_bridge of the agent (Agent).
--   Qos               the operations of the facada on QoS profiles, _put of the client, and sync_qos.
--   Timestamps        Timestamp, get_tags and set_tags of the facada.
--   CommandLine       cli_sync of the agent.
--   Database          the other queries of networking_nsxv3/db/db.py (Queries) over the tables that
--                     the root module declares. Keys, Members, Lookups and Paging are about them.
--   Rpc               networking_nsxv3/api/rpc.py: the calls of the agent (the root module), the
--                     answers of the server (Server), and the policy messages that
--                     networking_nsxv3/services/qos/drivers/nsxv3/qos.py causes (Policies).
--                     RoundTrip and Forwarding are about both ends.
--   Agent             get_all_devices of NSXv3Manager with its clock, the configurations that it
--                     reports, and the RPC methods on groups. Polling and Entries are about them.
--   Syncing           sync_port and sync_qos of the agent, composed of Database, Rpc, Ports and Qos.
--   Vsphere           agent/vsphere_client.py: the objects of vSphere and the methods (Methods).
--                     Keeps, Filters and Lookup are about them.
--   Migration         agent/nsxv3_migration.py, over Vsphere. Attaching and Forwarding are about it.
--   Locking           networking_nsxv3/common/locking.py and the name of a segment's lock.
--   Driver            try_to_bind_segment_for_agent and update_port_postcommit.
-- The modules called Examples run the definitions and the theorems on concrete inputs.
--
-- How the code is modelled. A method that changes something outside is a function from a state to
-- a result, or an exception, and a state (Exec of Base.Exec). What the program only calls is a
-- field of a record that the definitions take: the SDK services, HTTP, the search, pyVim and
-- pyVmomi, the locks of Python's libraries, ipaddress and netaddr. Its states are left open, so
-- the theorems hold for each server. Where a theorem needs what the outside does, its hypotheses
-- say it; the interfaces are Serves (a search answers by offset), OrdersByCreation (a query is in
-- order), IsStore (a server keeps a list of objects, and its search an index of them), IsIndexed
-- (the index has a new object after some pauses), PriorityQueue (a queue gives the job of the
-- least value), HasUniqueKeys (a table has no two rows of one key), and FilterLaws and
-- MigrationLaws (what a call of the vCenter leaves alone). Keeps of Base.Keeps is the form of an
-- invariant of a method. The tables of Neutron are lists of rows, and a message is its method and
-- its named arguments; oslo.messaging hands it over as it is. Locks make the calls on one object a
-- sequence, so there is one state. The rate limiter only delays a request, so the operations of
-- the client leave it out, and Scheduler is modelled for one green thread at a time. Numbers are
-- natural numbers; float division and round in the QoS rates are written as the whole division
-- that they are on such numbers in Python 2.
--
-- Fuel. The two loops that page (pages_loop and revisions_loop) take a number of rounds, and give
-- none where it runs out. The theorems about them say how many rounds are enough. login calls
-- itself through _post, and its number is the depth of calls that the interpreter allows; where it
-- is used up, the call raises recursion_error, as Python does. The retry loops count down the
-- attempts that the configuration allows; all other loops run over lists.
--
-- Not modelled: the constructors and registrations with Neutron and oslo; the defaults of the
-- options (networking_nsxv3/common/config.py); the trunk driver and the firewall extension, and the
-- methods of NSXv3Manager, whose bodies are empty or constant; main; the queries of db.py that have
-- no caller (_query_securitygrouprules, _query_standardattributes and _get_latest_changes);
-- start and stop of the runner's thread; the log lines; and constant SDK fields of new objects,
-- which no other code reads. sync_inventory takes a flag for whether the timestamp has expired.
pub mod Agent
pub mod Base
pub mod Client
pub mod CommandLine
pub mod Database
pub mod Driver
pub mod Facada
pub mod Firewall
pub mod Inventory
pub mod Locking
pub mod Migration
pub mod Ports
pub mod Qos
pub mod Revisions
pub mod Rpc
pub mod SecurityGroups
pub mod Synchronization
pub mod Syncing
pub mod Timestamps
pub mod Vsphere
