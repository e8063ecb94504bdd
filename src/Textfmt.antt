-- ===== src/Textfmt.antt =====
-- bridge/textfmt: conversion of texts and entities between Telegram and Bale.
pub mod Utf16
pub mod Splitting
pub mod TgToBale
pub mod BaleToTg
pub mod Notices
pub mod Headers
pub mod Renderers
