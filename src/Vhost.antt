-- ===== src/Vhost.antt =====
-- host/vhost/vhost_user_hmcuda.c: the scatter lists of a virtqueue element.
pub mod Iov
pub mod Queue
pub mod Requests
