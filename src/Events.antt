-- ===== src/Events.antt =====
-- What devices send of their own accord: SNMP traps and syslog messages
-- (backend/src/services/snmpTrapService.ts and backend/src/services/syslogService.ts).
pub mod Trap
pub mod Syslog
mod Tests
