-- ===== src/Lib.antt =====
-- The TCO calculator compares the cost of running SQL Server workloads where they are (EC2, EC2 virtual
-- machines, RDS, on-premises) with the cost of Azure. The parts that are modelled are the core of the
-- Rust service, under rust/src.
--
-- How the parts interact: a project document holds settings and resources. For each resource the
-- service selects an Azure target in a capability catalog, takes the storage that the target needs,
-- computes the cost of the source and of Azure from price rates, and compares the two. Documents are
-- kept in a repository that guards updates by entity tags, after a validation that lists the issues of
-- a project. A project is shared by a link with a secret, and handed to the pricing calculator by a
-- launch, which a companion program claims and acknowledges.
--
-- The files:
-- Prelude: the library's names, Boolean tests, lists, `Result` with `?` as a bind, the printing of
-- numbers. `Ensures P m` says that the result `m`, if it is there, has the property `P`.
-- Maps: the `HashMap` of the stores, as an association list without repeated keys. Clock: instants and
-- their texts, which the source takes from the `time` library; `IsTimes` lists what the theorems rely
-- on. A sum of an instant and a duration that leaves the range panics in the source; here it has a
-- value.
-- Ordering: comparators, the stable sort and the minimum and maximum of Rust's iterators.
-- Decimal: `rust_decimal::Decimal` as an interface, and rust/src/domain/decimal.rs. The library is not
-- part of the repository, and it rounds: `IsDecimal` lists what the theorems rely on, which are laws
-- of signs and of monotone rounding. Decimal/Thousandths is an instance that satisfies them. A run
-- that overflows panics in the source; it has no result there, and is not modelled.
-- Domain: the records of rust/src/domain/resource.rs and rust/src/domain/project.rs.
-- Target: rust/src/calculation/target_selector.rs. Candidate has `evaluate_candidate`,
-- `compare_candidates` and `eligible_candidates`, Fallback `closest_capacity_candidate`, and Select
-- `select_target`, whose local variables are definitions of their own (`selection` is the record that
-- it returns). Eligible, Ranking, Outcome, Capacity, Iops and Report are about them.
-- Cost: rust/src/calculation/cost.rs. Rates has the helpers, Volumes the prices of volumes, Source the
-- four sources, Azure the two targets and the savings. Signs, Bounds, Iops and Tiers are about them.
-- SqlPayg: rust/src/calculation/sql_payg.rs.
-- Projects: rust/src/persistence/repository.rs. The repository is passed from operation to operation;
-- the lock makes each of them one step. `serde_json`, the clock and new identifiers are parameters.
-- Validation: `validate` of rust/src/domain/project.rs, with `validate_settings` in Settings and the
-- checks of resources and volumes in Resources and Volumes. The issues are in the order of the source.
-- Launches: rust/src/persistence/calculator_launch.rs. `claim` and `acknowledge` write to the stored
-- launch before they can fail, and the model keeps what they have written. Changes says what a call
-- does to the map; Reachable, Phases, Claims and Acknowledgement are about sequences of calls. In
-- Reachable the instants of the calls do not decrease, which the system clock of the source does not
-- promise. Repository has a child module for each call but `purge_project`.
-- Shares: rust/src/persistence/project_share.rs. SHA-256 and `serde_json` are parameters here and in
-- Launches, and nothing is assumed of them; times are as in Clock.
-- Consents: rust/src/persistence/privacy_consent.rs.
-- Vm: rust/src/calculation/vm_target_selector.rs. Disks has `select_disk`, Source the reading of
-- instance types, Prices the reading of prices, Reasons the reasons to reject a size, Candidate the
-- evaluation of one size, and Select `select_vm_target`.
-- Examples: concrete inputs to which the theorems are applied.
--
-- Numbers: a `u32` or `u64` that is only read is a native number. Where the source saturates or checks
-- (`saturating_mul`, `saturating_sub`, `checked_add`), the model writes the bound out. The one plain sum
-- of `u64`, of the IOPS of the disks in `select_vm_target`, wraps as in a release build, where a debug
-- build panics. Recursion is structural, but for the printing of a number, whose fuel is its
-- successor, more than it has digits.
--
-- Not modelled: the HTTP interface, authentication, the assistant, downloads of price lists, the
-- external database, the web client and the companion, which pass data between outside services. Of
-- the core, the calculation workflow, rate limits and price snapshots are left out.
pub mod Prelude
pub mod Maps
pub mod Clock
pub mod Ordering
pub mod Decimal
pub mod Domain
pub mod Target
pub mod Vm
pub mod Cost
pub mod SqlPayg
pub mod Validation
pub mod Projects
pub mod Launches
pub mod Shares
pub mod Consents
pub mod Examples
