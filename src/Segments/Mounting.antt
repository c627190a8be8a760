-- ===== src/Segments/Mounting.antt =====
-- A mount of client_service.cpp that the master refuses.
