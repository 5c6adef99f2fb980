-- ===== src/Sleigh/Decoder/Tokens.antt =====

