-- ===== src/Reservation.antt =====
-- What a reservation takes from the stock, and what the compensation gives back.
pub mod Ordered
pub mod Reserve
pub mod Collected
pub mod Stocked
pub mod Returns
