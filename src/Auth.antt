-- ===== src/Auth.antt =====
-- drcom/src/auth.c: the session with the DHCP server. The children model the delays between logins,
-- the challenge, login and logout exchanges, and the loop of `dogcom` around them.
pub mod Delay
pub mod Exchange
pub mod Session
pub mod Dogcom
pub mod Pppoe
pub mod Program
pub mod Protocol
