-- ===== src/Tests.antt =====
-- Runs of the definitions on small inputs, and each theorem at a concrete input.
mod NothinkTests
mod ConfigTests
mod ModelTests
mod ArgsTests
mod RuntimeTests
mod HostTests
mod SseTests
mod ProxyTests
mod RequestTests
mod QuantTests
mod FitTests
mod CheckTests
mod ScorecardTests
mod UpliftTests
mod AblationTests
